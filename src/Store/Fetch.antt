-- ===== src/Store/Fetch.antt =====
-- What a read of a pair in the log of src/device.c delivers.
use Prim.Native.Nat.{Ordering}
use udepot_hopscotch.Base.{
  ℕ, zero, suc, ◌+◌, ◌-◌, ◌*◌, ◌%◌, ◌^◌, ◌≤◌, ◌<◌, ◌≡◌, refl, ◌∙◌, sym, ap, inl, inr, List, [], ◌∷◌,
  arith, length, get_or,
}
use udepot_hopscotch.Device.{Dev, grain_unit, staged_seg, is_staged, dev_abs_read}
use udepot_hopscotch.Device.Alloc.{IsValid}
use udepot_hopscotch.Device.Data.{drain, log_byte, is_staged_eq}
use udepot_hopscotch.Hopscotch.Table.{Entry}
use udepot_hopscotch.Store.{bytes_from, fetch, Lies}

pub length-bytes_from : (f : ℕ → ℕ) (a n : ℕ) → length (bytes_from f a n) ≡ n
unfolding bytes_from
length-bytes_from f a zero = refl
length-bytes_from f a (suc n) = ap suc (length-bytes_from f (a + 1) n)

pub bytes_from_ext :
    (f g : ℕ → ℕ) (a b n : ℕ)
    → ((i : ℕ) → i < n → f (a + i) ≡ g (b + i))
    → bytes_from f a n ≡ bytes_from g b n
unfolding bytes_from
bytes_from_ext f g a b zero h = refl
bytes_from_ext f g a b (suc n) h =
    let first : f a ≡ g b = ground (arith, h 0) in
    let later : (j : ℕ) → j < n → f (a + 1 + j) ≡ g (b + 1 + j) = λ j lt.
      let in_f : a + 1 + j ≡ a + suc j = omega arith in
      let in_g : b + suc j ≡ b + 1 + j = omega arith in
      ap f in_f ∙ h (suc j) (omega arith) ∙ ap g in_g in
    λ i. first i ∷ bytes_from_ext f g (a + 1) (b + 1) n later i

pub get_or-bytes_from : (f : ℕ → ℕ) (a n i : ℕ) → i < n → get_or (bytes_from f a n) i 0 ≡ f (a + i)
unfolding bytes_from
get_or-bytes_from f a zero i lt = absurd (omega arith)
get_or-bytes_from f a (suc n) zero lt = ap f (omega arith)
get_or-bytes_from f a (suc n) (suc i) lt =
    get_or-bytes_from f (a + 1) n i (omega arith) ∙ ap f (omega arith)

log_in :
    (dev : Dev) (a : ℕ)
    → (staged_seg dev).start_addr ≤ a
    → a < (staged_seg dev).offset
    → log_byte dev a ≡ dev.staged_seg_buf (a - (staged_seg dev).start_addr)
unfolding log_byte
log_in dev a lo hi = ground arith

log_old :
    (dev : Dev) (a : ℕ)
    → a < (staged_seg dev).start_addr
    → log_byte dev a ≡ drain dev.submitted dev.disk a
unfolding log_byte
log_old dev a lt = ground arith

module _ (dev : Dev) (pba grains : ℕ) where
  -- The pair is read from the staged buffer.
  fetch_staged :
      (grains * grain_unit < 2 ^ 32)
      → pba * grain_unit < 2 ^ 64
      → (staged_seg dev).start_addr ≤ pba * grain_unit
      → 0 < grains
      → pba * grain_unit + grains * grain_unit ≤ (staged_seg dev).offset
      → fetch dev pba grains ≡ bytes_from (log_byte dev) (pba * grain_unit) (grains * grain_unit)
  unfolding fetch dev_abs_read
  fetch_staged narrow reach lo pos hi =
      let at = is_staged_eq dev pba reach lo (omega arith) in
      let size : grains * grain_unit % 2 ^ 32 ≡ grains * grain_unit = omega arith in
      rw (fetch, dev_abs_read, at, size)
        (bytes_from_ext _ (log_byte dev) 0 (pba * grain_unit) (grains * grain_unit) (λ i lt.
          let index : pba * grain_unit % 2 ^ 64 - (staged_seg dev).start_addr + (0 + i)
              ≡ pba * grain_unit + i - (staged_seg dev).start_addr =
            omega arith in
          ap dev.staged_seg_buf index
          ∙ sym (log_in dev (pba * grain_unit + i) (omega arith) (omega arith))))

  fetch_old :
      (grains * grain_unit < 2 ^ 32)
      → pba * grain_unit < 2 ^ 64
      → 0 < grains
      → pba * grain_unit + grains * grain_unit ≤ (staged_seg dev).start_addr
      → fetch dev pba grains ≡ bytes_from (log_byte dev) (pba * grain_unit) (grains * grain_unit)
  unfolding fetch dev_abs_read is_staged
  fetch_old narrow reach pos hi =
      let below : is_staged dev pba ≡ Ordering.lt = ground arith in
      let size : grains * grain_unit % 2 ^ 32 ≡ grains * grain_unit = omega arith in
      let addr : pba * grain_unit % 2 ^ 64 ≡ pba * grain_unit = omega arith in
      rw (fetch, dev_abs_read, below, size, addr)
        (bytes_from_ext _ (log_byte dev) (pba * grain_unit) (pba * grain_unit) (grains * grain_unit)
          (λ i lt. sym (log_old dev (pba * grain_unit + i) (omega arith))))

-- The pair of an entry in the log is read as the log has it.
pub fetch_log :
    (dev : Dev) (e : Entry)
    → IsValid dev
    → 0 < e.kv_size
    → e.kv_size < 2 ^ 11
    → Lies dev e
    → fetch dev e.pba e.kv_size
      ≡ bytes_from (log_byte dev) (e.pba * grain_unit) (e.kv_size * grain_unit)
fetch_log dev e v pos few l =
    let s = v.segments dev.staged_seg_idx in
    let reach : e.pba * grain_unit < 2 ^ 64 =
      omega (arith, l.in_log, s.to, s.below, v.few, v.idx_in) in
    elim l.one_segment [
      | inl before ↦ fetch_old dev e.pba e.kv_size (omega arith) reach pos before
      | inr after ↦ fetch_staged dev e.pba e.kv_size (omega arith) reach after pos l.in_log
    ]

-- A read delivers as many bytes as it is asked for.
fetch_some :
    (dev : Dev) (pba grains : ℕ)
    → (f : ℕ → ℕ) × (a : ℕ) × (fetch dev pba grains ≡ bytes_from f a (grains * grain_unit % 2 ^ 32))
unfolding fetch dev_abs_read
fetch_some dev pba grains = choose (is_staged dev pba) refl
  where
    choose :
        (o : Ordering)
        → is_staged dev pba ≡ o
        → (f : ℕ → ℕ) × (a : ℕ) × (fetch dev pba grains
            ≡ bytes_from f a (grains * grain_unit % 2 ^ 32))
    choose Ordering.eq e = (
      λ i. dev.staged_seg_buf (pba * grain_unit % 2 ^ 64 - (staged_seg dev).start_addr + i),
      0,
      rw (fetch, dev_abs_read, e) refl,
    )
    choose Ordering.lt e =
        (drain dev.submitted dev.disk, pba * grain_unit % 2 ^ 64, rw (fetch, dev_abs_read, e) refl)
    choose Ordering.gt e =
        (drain dev.submitted dev.disk, pba * grain_unit % 2 ^ 64, rw (fetch, dev_abs_read, e) refl)

pub length-fetch :
    (dev : Dev) (pba grains : ℕ) → length (fetch dev pba grains) ≡ grains * grain_unit % 2 ^ 32
length-fetch dev pba grains =
    let (f, a, e) = fetch_some dev pba grains in
    ap (λ (l : List ℕ). length l) e ∙ length-bytes_from f a (grains * grain_unit % 2 ^ 32)

pub fetch_nothing : (dev : Dev) (pba : ℕ) → fetch dev pba 0 ≡ []
unfolding bytes_from
fetch_nothing dev pba = (fetch_some dev pba 0).2
