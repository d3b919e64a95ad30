-- ===== src/Device/Race.antt =====
-- A read of a pair of src/device.c right after the segment that it is in was flushed.
use udepot_hopscotch.Base.{
  ℕ, zero, suc, ◌+◌, ◌-◌, ◌*◌, ◌%◌, ◌^◌, ◌≤◌, ◌<◌, ◌≡◌, refl, ◌∙◌, sym, ap, List, [], ◌∷◌, ◌++◌,
  arith, length, take,
}
use udepot_hopscotch.Device.{
  Dev, AioWrite, segment_size, grain_unit, staged_seg, flush_segment, is_staged, aio_read,
  dev_abs_read, dev_abs_write, memcpy,
}
use udepot_hopscotch.Device.Alloc.{IsValid, next_start}
use udepot_hopscotch.Device.Data.{drain, drain-append, flush_rest, write_byte}

take_before :
    (k : ℕ) (ws : List AioWrite) (w : AioWrite) → k ≤ length ws → take k (ws ++ w ∷ []) ≡ take k ws
take_before zero ws w le = refl
take_before (suc k) [] w le = absurd (omega arith)
take_before (suc k) (x ∷ ws) w le =
    ap (λ (l : List AioWrite). x ∷ l) (take_before k ws w (omega arith))

-- Nothing of the layout changes with a write.
write-IsValid :
    (dev : Dev) (pba grains : ℕ) (buf : ℕ → ℕ)
    → IsValid dev
    → IsValid (dev_abs_write dev pba grains buf)
unfolding dev_abs_write
write-IsValid dev pba grains buf v = record {
  some_segment = v.some_segment;
  few = v.few;
  idx_in = v.idx_in;
  segments = v.segments;
  is_staged = v.is_staged;
}

memcpy_in :
    (dst src : ℕ → ℕ) (offset size i : ℕ)
    → offset ≤ i
    → i < offset + size
    → memcpy dst offset src size i ≡ src (i - offset)
memcpy_in dst src offset size i le lt = ground arith

module _ (dev : Dev) (pba grains : ℕ) (buf : ℕ → ℕ) (v : IsValid dev)
    (lo : (staged_seg dev).start_addr ≤ pba * grain_unit)
    (hi : pba * grain_unit + grains * grain_unit ≤ (staged_seg dev).offset) where
  abbrev written : Dev
  written = dev_abs_write dev pba grains buf

  abbrev flushed : Dev
  flushed = flush_segment written

  reach : pba * grain_unit < 2 ^ 64
  reach = let s = v.segments dev.staged_seg_idx in omega (arith, s.to, s.below, v.few, v.idx_in, hi)

  narrow : grains * grain_unit ≤ segment_size
  narrow = let s = v.segments dev.staged_seg_idx in omega (arith, s.from, s.to, s.below, lo, hi)

  goes_to_device :
      dev.staged_seg_idx + 1 < dev.nr_segment
      → 0 < grains
      → dev_abs_read flushed pba grains ≡ aio_read (pba * grain_unit) (grains * grain_unit)
  unfolding dev_abs_read is_staged dev_abs_write
  goes_to_device more pos =
      let start = next_start written (write-IsValid dev pba grains buf v) more in
      let s = v.segments dev.staged_seg_idx in
      let addr : pba * grain_unit % 2 ^ 64 ≡ pba * grain_unit = omega (arith, reach) in
      let size : grains * grain_unit % 2 ^ 32 ≡ grains * grain_unit = omega (arith, narrow) in
      ground (arith, start, addr, size, s.below, hi)

  -- When the write of the segment is done, the device has the pair.
  done_byte :
      (i : ℕ)
      → i < grains * grain_unit
      → drain flushed.submitted flushed.disk (pba * grain_unit + i) ≡ buf i
  unfolding dev_abs_write
  done_byte i lt =
      let s = v.segments dev.staged_seg_idx in
      let f = flush_rest written in
      let same : pba * grain_unit % 2 ^ 64 - (staged_seg dev).start_addr + i
          ≡ pba * grain_unit + i - (staged_seg dev).start_addr =
        omega (arith, reach, lo) in
      let inside : pba * grain_unit + i < (staged_seg dev).start_addr + segment_size =
        omega (arith, s.from, s.to, s.below, hi, lt) in
      let a = pba * grain_unit + i in
      ap (λ (ws : List AioWrite). drain ws flushed.disk a) f.0
      ∙ ap (λ (d : ℕ → ℕ). d a) (drain-append dev.submitted _ flushed.disk)
      ∙ memcpy_in (drain dev.submitted flushed.disk) written.staged_seg_buf
          (staged_seg dev).start_addr segment_size a (omega (arith, lo)) inside
      ∙ ap written.staged_seg_buf (sym same)
      ∙ write_byte dev pba grains buf i reach (omega (arith, narrow)) lo lt

  -- Before, it has what it had without the pair.
  pending_byte :
      (k a : ℕ)
      → k ≤ length dev.submitted
      → drain (take k flushed.submitted) flushed.disk a ≡ drain (take k dev.submitted) dev.disk a
  unfolding dev_abs_write
  pending_byte k a le =
      let f = flush_rest written in
      ap (λ (ws : List AioWrite). drain (take k ws) flushed.disk a) f.0
      ∙ ap (λ (ws : List AioWrite). drain ws flushed.disk a) (take_before k dev.submitted _ le)
      ∙ ap (λ (d : ℕ → ℕ). drain (take k dev.submitted) d a) f.1

-- Let a pair be written in the allocated part of the staged segment of a valid device with a segment left,
-- and let that segment be flushed then. A read of the pair goes to the device at once, although the device has
-- its bytes only when the write of the segment is done: where only writes that were submitted before it are
-- done, the bytes there are those that the device would have had without the pair.
pub dev_abs_read-flush_segment :
    (dev : Dev) (pba grains : ℕ) (buf : ℕ → ℕ) (k i : ℕ)
    → IsValid dev
    → dev.staged_seg_idx + 1 < dev.nr_segment
    → (staged_seg dev).start_addr ≤ pba * grain_unit
    → pba * grain_unit + grains * grain_unit ≤ (staged_seg dev).offset
    → i < grains * grain_unit
    → k ≤ length dev.submitted
    → let d = flush_segment (dev_abs_write dev pba grains buf) in
      let a = pba * grain_unit + i in
      (dev_abs_read d pba grains ≡ aio_read (pba * grain_unit) (grains * grain_unit))
      × (drain d.submitted d.disk a ≡ buf i)
      × (drain (take k d.submitted) d.disk a ≡ drain (take k dev.submitted) dev.disk a)
dev_abs_read-flush_segment dev pba grains buf k i v more lo hi lt le = (
  goes_to_device dev pba grains buf v lo hi more (omega (arith, lt)),
  done_byte dev pba grains buf v lo hi i lt,
  pending_byte dev pba grains buf v lo hi k (pba * grain_unit + i) le,
)
