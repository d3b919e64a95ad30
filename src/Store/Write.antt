-- ===== src/Store/Write.antt =====
-- What reads deliver before and after a pair is written at the head of the log of src/device.c.
use udepot_hopscotch.Base.{
  ℕ, ◌+◌, ◌-◌, ◌*◌, ◌%◌, ◌^◌, ◌≤◌, ◌<◌, ◌≡◌, ◌∙◌, sym, ap, ◌⊎◌, inl, inr, Bool-cases, List, arith,
  get_or, ◌==◌,
}
use udepot_hopscotch.Device.{
  Dev, segment_size, grain_unit, staged_seg, dev_abs_write, flush_segment, get_next_pba,
}
use udepot_hopscotch.Device.Alloc.{
  IsValid, round_up_lem, get_next_pba-cases, staged_seg-bump, staged_seg-flush_segment,
  get_next_pba-Extent, get_next_pba-ascends, next_start,
}
use udepot_hopscotch.Device.Data.{log_byte, dev_abs_read-write, get_next_pba-log_byte}
use udepot_hopscotch.Hopscotch.Table.{Entry, pba_invalid}
use udepot_hopscotch.Store.{bytes_from, fetch, write, Lies, IsKept}
use udepot_hopscotch.Store.Fetch.{bytes_from_ext, fetch_log, fetch_nothing}

-- The head of the log after an allocation.
head_moves :
    (dev : Dev) (size : ℕ)
    → IsValid dev
    → dev.staged_seg_idx + 1 < dev.nr_segment
    → (((staged_seg (get_next_pba dev size).1).start_addr ≡ (staged_seg dev).start_addr)
        ⊎ ((staged_seg dev).offset ≤ (staged_seg (get_next_pba dev size).1).start_addr))
      × ((staged_seg dev).offset ≤ (staged_seg (get_next_pba dev size).1).offset)
head_moves dev size v more = elim (get_next_pba-cases dev size) [
  | inl (room, e) ↦ let b = staged_seg-bump dev size in rw e (inl b.1, omega (arith, b.0))
  | inr (full, e) ↦
      let b = staged_seg-bump (flush_segment dev) size in
      let f = staged_seg-flush_segment dev in
      let start = next_start dev v more in
      let below = (v.segments dev.staged_seg_idx).below in
      rw e (inr (omega (arith, b.1, start, below)), omega (arith, b.0, f.0, start, below))
]

-- A write at or past an address leaves the bytes before it.
write-log_byte :
    (dev : Dev) (pba grains : ℕ) (value : List ℕ) (a : ℕ)
    → IsValid dev
    → a < pba * grain_unit
    → pba * grain_unit ≤ (staged_seg dev).offset
    → (staged_seg dev).start_addr ≤ pba * grain_unit
    → log_byte (write dev pba grains value) a ≡ log_byte dev a
unfolding log_byte dev_abs_write
write-log_byte dev pba grains value a v before in_log lo =
    let s = v.segments dev.staged_seg_idx in
    let wrapped : (pba * grain_unit % 2 ^ 64 + 2 ^ 64 - (staged_seg dev).start_addr) % 2 ^ 64
        ≡ pba * grain_unit - (staged_seg dev).start_addr =
      omega (arith, s.to, s.below, v.few, v.idx_in) in
    rw wrapped (ground arith)

module _ (dev : Dev) (len pba grains : ℕ) (value : List ℕ) (v : IsValid dev)
    (small : len ≤ segment_size) (more : dev.staged_seg_idx + 1 < dev.nr_segment)
    (at : pba ≡ (get_next_pba dev len).0) (fits : grains * grain_unit ≤ len) where
  -- The device after a pair of `len` bytes was allocated and written.
  abbrev pub after : Dev
  after = write (get_next_pba dev len).1 pba grains value

  pub after-IsValid : IsValid after
  unfolding dev_abs_write
  after-IsValid =
      let w = (get_next_pba-Extent dev len v small).valid in
      record {
        some_segment = w.some_segment;
        few = w.few;
        idx_in = w.idx_in;
        segments = w.segments;
        is_staged = w.is_staged;
      }

  after-Lies : (e : Entry) → Lies dev e → Lies after e
  unfolding dev_abs_write
  after-Lies e l =
      let (start, head) = head_moves dev len v more in
      record {
        in_log = omega (arith, l.in_log, head);
        one_segment = elim start [
          | inl same ↦ elim l.one_segment [
            | inl before ↦ inl (omega (arith, same, before))
            | inr behind ↦ inr (omega (arith, same, behind))
          ]
          | inr moved ↦ inl (omega (arith, moved, l.in_log))
        ];
      }

  pub after-IsKept : (e : Entry) → IsKept dev e → IsKept after e
  after-IsKept e (inl nothing) = inl nothing
  after-IsKept e (inr l) = inr (after-Lies e l)

  -- The pair is at the head of the log.
  placed :
      ((staged_seg dev).offset ≤ pba * grain_unit)
      × ((staged_seg (get_next_pba dev len).1).start_addr ≤ pba * grain_unit)
      × (pba * grain_unit + grains * grain_unit ≤ (staged_seg (get_next_pba dev len).1).offset)
  placed =
      let x = get_next_pba-Extent dev len v small in
      let up = get_next_pba-ascends dev len v small more in
      (
        omega (arith, at, up.0),
        omega (arith, at, x.inside),
        omega (arith, at, x.until, round_up_lem len small, fits),
      )

  -- A device of less than 2 ^ 47 bytes: the number of the grain fits the 40 bits of an entry, and is not the
  -- one that stands for none.
  pub grain_lt : dev.nr_segment < 2 ^ 26 → pba < pba_invalid
  grain_lt few =
      let (past, lo, hi) = placed in
      let x = (get_next_pba-Extent dev len v small).valid in
      let s = x.segments (get_next_pba dev len).1.staged_seg_idx in
      omega (arith, hi, s.to, s.below, x.idx_in, (get_next_pba-ascends dev len v small more).2, few)

  after-log_byte : (a : ℕ) → a < (staged_seg dev).offset → log_byte after a ≡ log_byte dev a
  after-log_byte a lt =
      let (past, lo, hi) = placed in
      let s = v.segments dev.staged_seg_idx in
      write-log_byte (get_next_pba dev len).1 pba grains value a
        (get_next_pba-Extent dev len v small).valid (omega (arith, past)) (omega (arith, hi)) lo
      ∙ get_next_pba-log_byte dev len a v small
          (inl lt, inl (omega (arith, next_start dev v more, s.below)))

  fetch_nothing-after :
      (e : Entry) → e.kv_size ≡ 0 → fetch after e.pba e.kv_size ≡ fetch dev e.pba e.kv_size
  fetch_nothing-after e nothing =
      (λ i. fetch after e.pba (nothing i))
      ∙ fetch_nothing after e.pba
      ∙ sym (fetch_nothing dev e.pba)
      ∙ (λ i. fetch dev e.pba (sym nothing i))

  -- Reads of the pairs that were in the log deliver what they did before.
  pub fetch-after :
      (e : Entry)
      → e.kv_size < 2 ^ 11
      → IsKept dev e
      → fetch after e.pba e.kv_size ≡ fetch dev e.pba e.kv_size
  fetch-after e few (inl nothing) = fetch_nothing-after e nothing
  fetch-after e few (inr l) = elim (Bool-cases (e.kv_size == 0)) [
    | inl y ↦ fetch_nothing-after e (ground arith)
    | inr n ↦
        let pos : 0 < e.kv_size = ground arith in
        fetch_log after e after-IsValid pos few (after-Lies e l)
        ∙ bytes_from_ext (log_byte after) (log_byte dev) (e.pba * grain_unit) (e.pba * grain_unit)
            (e.kv_size * grain_unit)
            (λ i lt. after-log_byte (e.pba * grain_unit + i) (omega (arith, l.in_log)))
        ∙ sym (fetch_log dev e v pos few l)
  ]

  -- A read of the new pair delivers what was written.
  pub fetch-new :
      0 < grains
      → fetch after pba grains ≡ bytes_from (λ i. get_or value i 0) 0 (grains * grain_unit)
  unfolding fetch
  fetch-new pos =
      let (past, lo, hi) = placed in
      let (f, e, same) =
        dev_abs_read-write (get_next_pba dev len).1 pba grains (λ i. get_or value i 0)
          (get_next_pba-Extent dev len v small).valid pos (omega (arith, fits, small)) lo hi in
      let size : grains * grain_unit % 2 ^ 32 ≡ grains * grain_unit = omega (arith, fits, small) in
      rw (fetch, e, size)
        (bytes_from_ext f (λ i. get_or value i 0) 0 0 (grains * grain_unit)
          (λ i lt. ap f (omega arith) ∙ same i lt ∙ ap (λ j. get_or value j 0) (omega arith)))

  -- The new pair lies in the log.
  pub new-Lies : (e : Entry) → e.pba ≡ pba → e.kv_size ≡ grains → Lies after e
  unfolding dev_abs_write
  new-Lies e here size =
      let (past, lo, hi) = placed in
      record { in_log = omega (arith, here, size, hi); one_segment = inr (omega (arith, here, lo)) }
