-- ===== src/Device/Alloc.antt =====
-- Where `get_next_pba` of src/device.c puts a pair.
use mathlib.Core.Path.{subst}
use native.Mathlib.Nat.{mod-eq_of_lt, mod_self}
use udepot_hopscotch.Base.{
  sym, ap, ℕ, ◌+◌, ◌*◌, ◌/◌, ◌%◌, ◌^◌, ◌≤◌, ◌<◌, ◌≡◌, refl, ◌∙◌, ◌⊎◌, inl, inr, arith, ltb,
  Bool-cases, update,
}
use udepot_hopscotch.Device.{
  Dev, Segment, SegState, staged, segment_size, grain_unit, staged_seg, dev_abs_init, flush_segment,
  bump, round_up, get_next_pba,
}

-- The layout of one segment: its own stretch of the device, the offset in it and at a grain.
pub record SegmentOk (i : ℕ) (s : Segment) : Type 0 where
  pub from : s.start_addr ≡ i * segment_size
  pub to : s.end_addr ≡ (i + 1) * segment_size
  pub above : s.start_addr ≤ s.offset
  pub below : s.offset ≤ s.end_addr
  pub grain : s.offset % grain_unit ≡ 0

pub record IsValid (dev : Dev) : Type 0 where
  pub some_segment : 0 < dev.nr_segment
  pub few : dev.nr_segment < 2 ^ 32
  pub idx_in : dev.staged_seg_idx < dev.nr_segment
  pub segments : (i : ℕ) → SegmentOk i (dev.seg_array i)
  pub is_staged : (staged_seg dev).state ≡ staged

-- A device of at least one segment starts out valid.
pub dev_abs_init-IsValid :
    (blocks size : ℕ) (disk : ℕ → ℕ)
    → 0 < blocks * size / segment_size % 2 ^ 32
    → IsValid (dev_abs_init blocks size disk)
unfolding dev_abs_init
dev_abs_init-IsValid blocks size disk h = record {
  some_segment = h;
  few = omega arith;
  idx_in = h;
  segments = λ i. omega arith;
  is_staged = refl;
}

update-SegmentOk :
    (segs : ℕ → Segment) (j : ℕ) (s : Segment)
    → ((i : ℕ) → SegmentOk i (segs i))
    → SegmentOk j s
    → (i : ℕ) → SegmentOk i (update segs j s i)
update-SegmentOk segs j s h hj i = ground (arith, h i)

pub round_up_lem :
    (size : ℕ)
    → size ≤ segment_size
    → (size ≤ round_up size)
      × (round_up size % grain_unit ≡ 0)
      × (round_up size < size + grain_unit)
unfolding round_up
round_up_lem size h = ground arith

pub flush_segment-IsValid : (dev : Dev) → IsValid dev → IsValid (flush_segment dev)
unfolding flush_segment
flush_segment-IsValid dev v = record {
  some_segment = v.some_segment;
  few = v.few;
  idx_in = omega (arith, v.some_segment);
  segments = update-SegmentOk _ _ _ marked (
      let s = marked ((dev.staged_seg_idx + 1) % dev.nr_segment) in
      record {
        from = s.from;
        to = s.to;
        above = omega arith;
        below = omega (arith, s.above, s.below);
        grain = omega (arith, s.from);
      });
  is_staged = ground arith;
}
  where
    marked :
        (i : ℕ)
        → SegmentOk i (
            update dev.seg_array dev.staged_seg_idx
              (record (staged_seg dev) { state = SegState.used })
              i)
    marked =
        let s = v.segments dev.staged_seg_idx in
        update-SegmentOk dev.seg_array dev.staged_seg_idx _ v.segments
          (record { from = s.from; to = s.to; above = s.above; below = s.below; grain = s.grain })

-- After a flush the staged segment is empty.
pub staged_seg-flush_segment :
    (dev : Dev)
    → ((staged_seg (flush_segment dev)).offset ≡ (staged_seg (flush_segment dev)).start_addr)
      × ((flush_segment dev).staged_seg_idx ≡ (dev.staged_seg_idx + 1) % dev.nr_segment)
      × ((flush_segment dev).nr_segment ≡ dev.nr_segment)
unfolding flush_segment
staged_seg-flush_segment dev = (ground arith, refl, refl)

-- What `bump` leaves: the offset past the pair, all else as it was.
pub staged_seg-bump :
    (dev : Dev) (size : ℕ)
    → ((staged_seg (bump dev size).1).offset ≡ (staged_seg dev).offset + round_up size)
      × ((staged_seg (bump dev size).1).start_addr ≡ (staged_seg dev).start_addr)
      × ((staged_seg (bump dev size).1).end_addr ≡ (staged_seg dev).end_addr)
      × ((staged_seg (bump dev size).1).state ≡ (staged_seg dev).state)
unfolding bump
staged_seg-bump dev size = (ground arith, ground arith, ground arith, ground arith)

-- Where the unrounded size fits, so does the rounded one, since a segment ends at a grain.
pub rounded_fits :
    (dev : Dev) (size : ℕ)
    → IsValid dev
    → size ≤ segment_size
    → (staged_seg dev).offset + size ≤ (staged_seg dev).end_addr
    → (staged_seg dev).offset + round_up size ≤ (staged_seg dev).end_addr
rounded_fits dev size v small fits =
    let s = v.segments dev.staged_seg_idx in omega (arith, s.grain, s.to, round_up_lem size small)

bump_at :
    (dev : Dev) (size : ℕ)
    → (staged_seg dev).offset % grain_unit ≡ 0
    → (bump dev size).0 * grain_unit ≡ (staged_seg dev).offset
unfolding bump
bump_at dev size h = omega arith

bump-IsValid :
    (dev : Dev) (size : ℕ)
    → IsValid dev
    → size ≤ segment_size
    → (staged_seg dev).offset + size ≤ (staged_seg dev).end_addr
    → IsValid (bump dev size).1
unfolding bump
bump-IsValid dev size v small fits = record {
  some_segment = v.some_segment;
  few = v.few;
  idx_in = v.idx_in;
  segments = update-SegmentOk dev.seg_array dev.staged_seg_idx _ v.segments (
      let s = v.segments dev.staged_seg_idx in
      record {
        from = s.from;
        to = s.to;
        above = omega (arith, s.above);
        below = rounded_fits dev size v small fits;
        grain = omega (arith, s.grain, round_up_lem size small);
      });
  is_staged = (staged_seg-bump dev size).3 ∙ v.is_staged;
}

-- The segment after the staged one, where there is one, starts where the staged one ends.
pub next_start :
    (dev : Dev)
    → IsValid dev
    → dev.staged_seg_idx + 1 < dev.nr_segment
    → (staged_seg (flush_segment dev)).start_addr ≡ (staged_seg dev).end_addr
next_start dev v more =
    let w = flush_segment-IsValid dev v in
    let s = w.segments (flush_segment dev).staged_seg_idx in
    let f = staged_seg-flush_segment dev in
    s.from
    ∙ ap (λ i. i * segment_size) (f.1 ∙ mod-eq_of_lt more)
    ∙ sym (v.segments dev.staged_seg_idx).to

-- Whether the staged segment has room decides the device that `bump` runs on.
pub get_next_pba-cases :
    (dev : Dev) (size : ℕ)
    → (((staged_seg dev).offset + size ≤ (staged_seg dev).end_addr)
        × (get_next_pba dev size ≡ bump dev size))
      ⊎ (((staged_seg dev).end_addr < (staged_seg dev).offset + size)
          × (get_next_pba dev size ≡ bump (flush_segment dev) size))
unfolding get_next_pba
get_next_pba-cases dev size =
    elim (Bool-cases (ltb (staged_seg dev).end_addr ((staged_seg dev).offset + size))) [
      | inl full ↦ inr (ground arith, rw full)
      | inr room ↦ inl (ground arith, rw room)
    ]

-- The space of a pair of `size` bytes: from its address to the offset, within the staged segment.
pub record Extent (size : ℕ) (r : ℕ × Dev) : Type 0 where
  pub valid : IsValid r.1
  pub inside : (staged_seg r.1).start_addr ≤ r.0 * grain_unit
  pub until : r.0 * grain_unit + round_up size ≡ (staged_seg r.1).offset

bump-Extent :
    (dev : Dev) (size : ℕ)
    → IsValid dev
    → size ≤ segment_size
    → (staged_seg dev).offset + size ≤ (staged_seg dev).end_addr
    → Extent size (bump dev size) × ((bump dev size).0 * grain_unit ≡ (staged_seg dev).offset)
bump-Extent dev size v small fits =
    let b = staged_seg-bump dev size in
    let s = v.segments dev.staged_seg_idx in
    let at = bump_at dev size s.grain in
    (
      record {
        valid = bump-IsValid dev size v small fits;
        inside = omega (arith, b.1, s.above, at);
        until = omega (arith, b.0, at);
      },
      at,
    )

pub flush_fits :
    (dev : Dev) (size : ℕ)
    → IsValid dev
    → size ≤ segment_size
    → (staged_seg (flush_segment dev)).offset + size ≤ (staged_seg (flush_segment dev)).end_addr
flush_fits dev size v small =
    let s = (flush_segment-IsValid dev v).segments (flush_segment dev).staged_seg_idx in
    omega (arith, s.from, s.to, (staged_seg-flush_segment dev).0)

-- For a pair no larger than a segment, `get_next_pba` keeps the layout of the device, and hands out
-- an address whose grains, up to the pair's rounded size, lie in the staged segment and end at its
-- new offset.
pub get_next_pba-Extent :
    (dev : Dev) (size : ℕ) → IsValid dev → size ≤ segment_size → Extent size (get_next_pba dev size)
get_next_pba-Extent dev size v small = elim (get_next_pba-cases dev size) [
  | inl (room, e) ↦ subst (Extent size) (sym e) (bump-Extent dev size v small room).0
  | inr (full, e) ↦
      subst (Extent size) (sym e)
        (bump-Extent (flush_segment dev) size (flush_segment-IsValid dev v) small
          (flush_fits dev size v small)).0
]

-- The head of the log: a later address, in the same or in the next segment.
pub get_next_pba-ascends :
    (dev : Dev) (size : ℕ)
    → IsValid dev
    → size ≤ segment_size
    → dev.staged_seg_idx + 1 < dev.nr_segment
    → ((staged_seg dev).offset ≤ (get_next_pba dev size).0 * grain_unit)
      × ((get_next_pba dev size).1.staged_seg_idx ≤ dev.staged_seg_idx + 1)
      × ((get_next_pba dev size).1.nr_segment ≡ dev.nr_segment)
unfolding bump
get_next_pba-ascends dev size v small more = elim (get_next_pba-cases dev size) [
  | inl (room, e) ↦ rw e (omega (arith, (bump-Extent dev size v small room).1), omega arith, refl)
  | inr (full, e) ↦ rw e (
    omega (
      arith,
      (bump-Extent (flush_segment dev) size (flush_segment-IsValid dev v) small
          (flush_fits dev size v small)).1,
      next_start dev v more,
      (staged_seg-flush_segment dev).0,
      (v.segments dev.staged_seg_idx).below,
    ),
    omega (arith, (staged_seg-flush_segment dev).1),
    (staged_seg-flush_segment dev).2,
  )
]

-- The last segment is followed by the first one: with no room left there the next address is 0, where
-- the log began, whatever is still in use there.
pub get_next_pba-wraps :
    (dev : Dev) (size : ℕ)
    → IsValid dev
    → size ≤ segment_size
    → dev.staged_seg_idx + 1 ≡ dev.nr_segment
    → (staged_seg dev).end_addr < (staged_seg dev).offset + size
    → (get_next_pba dev size).0 ≡ 0
get_next_pba-wraps dev size v small last full = elim (get_next_pba-cases dev size) [
  | inl (room, e) ↦ absurd (omega arith)
  | inr (_, e) ↦
      let f = staged_seg-flush_segment dev in
      let w = flush_segment-IsValid dev v in
      let zero_idx : (flush_segment dev).staged_seg_idx ≡ 0 =
        f.1 ∙ ap (λ n. n % dev.nr_segment) last ∙ mod_self dev.nr_segment in
      let at = (bump-Extent (flush_segment dev) size w small (flush_fits dev size v small)).1 in
      rw e (omega (arith, at, f.0, (w.segments (flush_segment dev).staged_seg_idx).from, zero_idx))
]
