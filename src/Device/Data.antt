-- ===== src/Device/Data.antt =====
-- The bytes of src/device.c: a pair that is written is read back from the staged buffer, and the log
-- as a store of bytes is not changed by a flush.
use Prim.Native.Nat.{Ordering}
use udepot_hopscotch.Base.{
  ℕ, ◌+◌, ◌-◌, ◌*◌, ◌%◌, ◌^◌, ◌≤◌, ◌<◌, ◌≡◌, refl, ◌∙◌, ap, ◌⊎◌, inl, inr, List, [], ◌∷◌, ◌++◌,
  arith, ltb, leb, ◌&&◌, if◌then◌else◌,
}
use udepot_hopscotch.Device.{
  Dev, AioWrite, segment_size, grain_unit, staged_seg, flush_segment, bump, round_up, get_next_pba,
  is_staged, copied, dev_abs_read, dev_abs_write, memcpy,
}
use udepot_hopscotch.Device.Alloc.{
  IsValid, staged_seg-bump, staged_seg-flush_segment, flush_segment-IsValid, get_next_pba-cases,
  rounded_fits, flush_fits,
}

pub is_staged_eq :
    (dev : Dev) (pba : ℕ)
    → pba * grain_unit < 2 ^ 64
    → (staged_seg dev).start_addr ≤ pba * grain_unit
    → pba * grain_unit < (staged_seg dev).offset
    → is_staged dev pba ≡ Ordering.eq
unfolding is_staged
is_staged_eq dev pba small lo hi = ground arith

pub staged_seg-dev_abs_write :
    (dev : Dev) (pba grains : ℕ) (buf : ℕ → ℕ)
    → staged_seg (dev_abs_write dev pba grains buf) ≡ staged_seg dev
unfolding dev_abs_write
staged_seg-dev_abs_write dev pba grains buf = refl

pub write_byte :
    (dev : Dev) (pba grains : ℕ) (buf : ℕ → ℕ) (i : ℕ)
    → pba * grain_unit < 2 ^ 64
    → grains * grain_unit < 2 ^ 32
    → (staged_seg dev).start_addr ≤ pba * grain_unit
    → i < grains * grain_unit
    → (dev_abs_write dev pba grains buf).staged_seg_buf
        (pba * grain_unit % 2 ^ 64 - (staged_seg (dev_abs_write dev pba grains buf)).start_addr + i)
      ≡ buf i
unfolding dev_abs_write
write_byte dev pba grains buf i reach narrow lo lt =
    rw (address, wrapped, size)
      (ground (arith, ap buf (cancel (pba * grain_unit - (staged_seg dev).start_addr) i)))
  where
    address : pba * grain_unit % 2 ^ 64 ≡ pba * grain_unit
    address = omega arith

    wrapped :
        (pba * grain_unit + 2 ^ 64 - (staged_seg dev).start_addr) % 2 ^ 64
        ≡ pba * grain_unit - (staged_seg dev).start_addr
    wrapped = omega arith

    size : grains * grain_unit % 2 ^ 32 ≡ grains * grain_unit
    size = omega arith

    cancel : (x i : ℕ) → x + i - x ≡ i
    cancel x i = omega arith

-- A pair of whole grains, in space that was just allocated for it, is read back as it was written,
-- from the staged buffer and with no I/O.
pub dev_abs_read-write :
    (dev : Dev) (pba grains : ℕ) (buf : ℕ → ℕ)
    → IsValid dev
    → 0 < grains
    → grains * grain_unit ≤ segment_size
    → (staged_seg dev).start_addr ≤ pba * grain_unit
    → pba * grain_unit + grains * grain_unit ≤ (staged_seg dev).offset
    → (f : ℕ → ℕ) × (dev_abs_read (dev_abs_write dev pba grains buf) pba grains ≡ copied f)
      × ((i : ℕ) → i < grains * grain_unit → f i ≡ buf i)
unfolding dev_abs_read dev_abs_write
dev_abs_read-write dev pba grains buf v pos small lo hi = (
  λ i. after.staged_seg_buf (pba * grain_unit % 2 ^ 64 - (staged_seg after).start_addr + i),
  rw (dev_abs_read, is_staged_eq after pba reach (rw same lo) (rw same (omega arith))),
  λ i lt. write_byte dev pba grains buf i reach (omega arith) lo lt,
)
  where
    after : Dev
    after = dev_abs_write dev pba grains buf

    same : staged_seg after ≡ staged_seg dev
    same = staged_seg-dev_abs_write dev pba grains buf

    reach : pba * grain_unit < 2 ^ 64
    reach = let s = v.segments dev.staged_seg_idx in omega (arith, s.to, s.below, v.few, v.idx_in)

-- The writes in flight, carried out in the order in which they were submitted.
unfoldable pub drain : List AioWrite → (ℕ → ℕ) → ℕ → ℕ
drain [] disk = disk
drain (w ∷ ws) disk = drain ws (memcpy disk w.addr_in_byte w.buf w.size)

pub drain-append :
    (ws : List AioWrite) (w : AioWrite) (disk : ℕ → ℕ)
    → drain (ws ++ w ∷ []) disk ≡ memcpy (drain ws disk) w.addr_in_byte w.buf w.size
unfolding drain
drain-append [] w disk = refl
drain-append (v ∷ ws) w disk = drain-append ws w (memcpy disk v.addr_in_byte v.buf v.size)

-- The log as a store: the allocated part of the staged segment is in its buffer, and all else is
-- where the device has it once the writes in flight are done.
unfoldable pub log_byte : Dev → ℕ → ℕ
unfolding drain
log_byte dev a =
    if leb (staged_seg dev).start_addr a && ltb a (staged_seg dev).offset
    then dev.staged_seg_buf (a - (staged_seg dev).start_addr)
    else drain dev.submitted dev.disk a

-- The byte is not in the unused part of the staged segment, nor in the segment that comes next.
abbrev pub Settled : Dev → ℕ → Type 0
Settled dev a =
    ((a < (staged_seg dev).offset) ⊎ ((staged_seg dev).end_addr ≤ a))
    × ((a < (staged_seg (flush_segment dev)).start_addr)
        ⊎ ((staged_seg (flush_segment dev)).end_addr ≤ a))

-- `bump` changes nothing but the offset.
bump_rest :
    (dev : Dev) (size : ℕ)
    → ((bump dev size).1.staged_seg_buf ≡ dev.staged_seg_buf)
      × ((bump dev size).1.submitted ≡ dev.submitted)
      × ((bump dev size).1.disk ≡ dev.disk)
unfolding bump
bump_rest dev size = (refl, refl, refl)

bump-log_byte :
    (dev : Dev) (size a : ℕ)
    → (staged_seg dev).offset + round_up size ≤ (staged_seg dev).end_addr
    → (a < (staged_seg dev).offset) ⊎ ((staged_seg dev).end_addr ≤ a)
    → log_byte (bump dev size).1 a ≡ log_byte dev a
unfolding log_byte
bump-log_byte dev size a fits settled =
    let b = staged_seg-bump dev size in
    let r = bump_rest dev size in rw (b.0, b.1, r.0, r.1, r.2) (ground arith)

-- `flush_segment` submits the staged buffer, and leaves the device as it is.
pub flush_rest :
    (dev : Dev)
    → ((flush_segment dev).submitted
        ≡ dev.submitted
          ++ record {
            addr_in_byte = (staged_seg dev).start_addr;
            size = segment_size;
            buf = dev.staged_seg_buf;
          }
            ∷ [])
      × ((flush_segment dev).disk ≡ dev.disk)
unfolding flush_segment
flush_rest dev = (refl, refl)

flush-log_byte :
    (dev : Dev) (a : ℕ)
    → IsValid dev
    → (a < (staged_seg dev).offset) ⊎ ((staged_seg dev).end_addr ≤ a)
    → log_byte (flush_segment dev) a ≡ log_byte dev a
unfolding log_byte
flush-log_byte dev a v settled =
    let f = staged_seg-flush_segment dev in
    let r = flush_rest dev in
    let s = v.segments dev.staged_seg_idx in
    rw (f.0, r.0, r.1, drain-append) (ground (arith, s.from, s.to, s.below))

-- On a valid device, for a pair no larger than a segment, `get_next_pba` changes no byte of the log, but
-- in the unused part of the staged segment, where the new pair goes, and in the segment that is staged
-- next: a flush hands the staged bytes to the device.
pub get_next_pba-log_byte :
    (dev : Dev) (size a : ℕ)
    → IsValid dev
    → size ≤ segment_size
    → Settled dev a
    → log_byte (get_next_pba dev size).1 a ≡ log_byte dev a
get_next_pba-log_byte dev size a v small (here, next) = elim (get_next_pba-cases dev size) [
  | inl (room, e) ↦ rw e (bump-log_byte dev size a (rounded_fits dev size v small room) here)
  | inr (full, e) ↦
      let w = flush_segment-IsValid dev v in
      rw e (
        bump-log_byte (flush_segment dev) size a
          (rounded_fits (flush_segment dev) size w small (flush_fits dev size v small))
          (before_or_after (flush_segment dev) a (staged_seg-flush_segment dev).0 next)
        ∙ flush-log_byte dev a v here)
]
  where
    before_or_after :
        (d : Dev) (a : ℕ)
        → (staged_seg d).offset ≡ (staged_seg d).start_addr
        → (a < (staged_seg d).start_addr) ⊎ ((staged_seg d).end_addr ≤ a)
        → (a < (staged_seg d).offset) ⊎ ((staged_seg d).end_addr ≤ a)
    before_or_after d a e h = omega arith
