-- ===== src/Hopscotch/Table/Place.antt =====
-- A table of src/hopscotch.c as the set of the records that it holds, and what writing a new entry
-- into the slot of `find_free_entry` does to that set.
use mathlib.Core.Path.{subst}
use native.Mathlib.Decide.{ℕ_discrete}
use udepot_hopscotch.Base.{
  ℕ, ◌^◌, ◌<◌, ◌≡◌, ◌≢◌, ◌⊎◌, ◌↔◌, inl, inr, some, arith, ◌∙◌, sym, ap, update,
}
use udepot_hopscotch.Hopscotch.Table.{
  Table, Entry, slot, home_of, nr_entry, find_free_entry, fill_entry, max_hop, pba_invalid,
}
use udepot_hopscotch.Hopscotch.Table.Search.{IsFree}
use udepot_hopscotch.Hopscotch.Table.Free.{
  InRange, away, moved, FindsFree, find_free_entry-FindsFree,
}

-- The table holds, within the hop of `home`, an entry with its distance from there.
abbrev pub HoldsAt : Table → ℕ → ℕ → ℕ → ℕ → ℕ → Type 0
HoldsAt ht home tag size pba o =
    (o < max_hop)
    × (ht (slot home o) ≡ record { neigh_off = o; key_fp_tag = tag; kv_size = size; pba = pba })

abbrev pub Holds : Table → ℕ → ℕ → ℕ → ℕ → Type 0
Holds ht home tag size pba = (o : ℕ) × HoldsAt ht home tag size pba o

-- Two homes whose slots at one offset agree are one.
slot_inj : (h h' o : ℕ) → h < nr_entry → h' < nr_entry → o < max_hop → slot h o ≡ slot h' o → h ≡ h'
slot_inj h h' o a b c e = omega arith

-- The home of an entry at its distance from `h` is `h`.
home-slot :
    (ht : Table) (h o : ℕ)
    → h < nr_entry
    → o < max_hop
    → (ht (slot h o)).neigh_off ≡ o
    → home_of ht (slot h o) ≡ h
unfolding home_of
home-slot ht h o lt near e = rw e (omega arith)

slot-home :
    (ht : Table) (i : ℕ)
    → i < nr_entry
    → (ht i).neigh_off < max_hop
    → slot (home_of ht i) (ht i).neigh_off ≡ i
unfolding home_of
slot-home ht i lt near = omega arith

pub fill_in_range :
    (o tag size pba : ℕ)
    → o < max_hop
    → tag < 2 ^ 8
    → size < 2 ^ 11
    → pba < 2 ^ 40
    → fill_entry o tag size pba
      ≡ record { neigh_off = o; key_fp_tag = tag; kv_size = size; pba = pba }
unfolding fill_entry
fill_in_range o tag size pba a b c d = ground arith

-- A live entry does not stand in a free slot.
live_ne :
    (ht : Table) {i j pba : ℕ}
    → (ht i).pba ≡ pba
    → pba ≢ pba_invalid
    → (ht j).pba ≡ pba_invalid
    → i ≢ j
live_ne ht e live free q = live (sym e ∙ ap (λ k. (ht k).pba) q ∙ free)

pub update_self : (t : Table) (i : ℕ) (e : Entry) → update t i e i ≡ e
update_self t i e = ground arith

pub update_ne : (t : Table) (i j : ℕ) (e : Entry) → j ≢ i → update t i e j ≡ t j
update_ne t i j e h = ground arith

-- The record that a new entry stands for.
abbrev pub IsNew : ℕ → Entry → ℕ → ℕ → ℕ → ℕ → Type 0
IsNew idx new home tag size pba =
    (home ≡ idx) × (tag ≡ new.key_fp_tag) × (size ≡ new.kv_size) × (pba ≡ new.pba)

module _ (ht : Table) (idx free : ℕ) (new : Entry) (near : free < max_hop) (at : idx < nr_entry)
    (off : new.neigh_off ≡ free) where
  abbrev c : ℕ
  c = slot idx free

  -- The new entry is held, whatever table it is written into.
  new-Holds : (t : Table) → HoldsAt (update t c new) idx new.key_fp_tag new.kv_size new.pba free
  new-Holds t = (near, rw update_self (ground arith))

  -- What stands in the written slot is the new entry.
  at_c :
      (t : Table) {home tag size pba o : ℕ}
      → home < nr_entry
      → slot home o ≡ c
      → HoldsAt (update t c new) home tag size pba o
      → IsNew idx new home tag size pba
  at_c t {home} {tag} {size} {pba} {o} lt q (ho, e) =
      let e' : new ≡ record { neigh_off = o; key_fp_tag = tag; kv_size = size; pba = pba } =
        sym (update_self t c new) ∙ ap (update t c new) (sym q) ∙ e in
      let same : free ≡ o = sym off ∙ ap (λ (r : Entry). r.neigh_off) e' in
      (
        slot_inj home idx o lt at ho (q ∙ ap (slot idx) same),
        sym (ap (λ (r : Entry). r.key_fp_tag) e'),
        sym (ap (λ (r : Entry). r.kv_size) e'),
        sym (ap (λ (r : Entry). r.pba) e'),
      )

  IsNew-Holds :
      (t : Table) {home tag size pba : ℕ}
      → IsNew idx new home tag size pba
      → Holds (update t c new) home tag size pba
  IsNew-Holds t n = (
    free,
    (near, ap (λ h. update t c new (slot h free)) n.0 ∙ update_self t c new ∙ ground arith),
  )

  -- An entry that stands elsewhere is as it was.
  kept :
      (t : Table) (home o : ℕ) {tag size pba : ℕ}
      → slot home o ≢ c
      → HoldsAt t home tag size pba o ↔ HoldsAt (update t c new) home tag size pba o
  kept t home o ne = (
    λ h. (h.0, update_ne t c (slot home o) new ne ∙ h.1),
    λ h. (h.0, sym (update_ne t c (slot home o) new ne) ∙ h.1),
  )

  -- The slot was free.
  free-Holds :
      IsFree ht idx free
      → (home tag size pba : ℕ) → home < nr_entry
      → pba ≢ pba_invalid
      → Holds (update ht c new) home tag size pba
        ↔ (IsNew idx new home tag size pba ⊎ Holds ht home tag size pba)
  free-Holds was home tag size pba lt live = (
    λ (o, h). elim (ℕ_discrete (slot home o) c) [
      | yes q ↦ inl (at_c ht lt q h)
      | no ne ↦ inr (o, (kept ht home o ne).1 h)
    ],
    λ s. elim s [
      | inl n ↦ IsNew-Holds ht n
      | inr (o, h) ↦ (o, (kept ht home o (live_ne ht (ap (λ (r : Entry). r.pba) h.1) live was)).0 h)
    ],
  )

  -- The slot was emptied for the new entry.
  module _ (dis : ℕ) (ranges : InRange (ht c)) (past : (ht c).neigh_off < dis) (hop : dis < max_hop)
      (was : (ht (away ht c dis)).pba ≡ pba_invalid) (taken : (ht c).pba ≢ pba_invalid) where
    abbrev there : ℕ
    there = away ht c dis

    abbrev mid : Table
    mid = update ht there (moved ht c dis)

    moved_lem : moved ht c dis ≡ record (ht c) { neigh_off = dis }
    moved_lem =
        fill_in_range dis (ht c).key_fp_tag (ht c).kv_size (ht c).pba hop ranges.key_fp_tag
          ranges.kv_size ranges.pba

    home-lt : home_of ht c < nr_entry
    unfolding home_of
    home-lt = omega arith

    -- The entry that moved was held for its home before.
    moved_from :
        {home tag size pba o : ℕ}
        → home < nr_entry
        → slot home o ≡ there
        → HoldsAt mid home tag size pba o
        → Holds ht home tag size pba
    moved_from {home} {tag} {size} {pba} {o} lt q (near', e) =
        let e' : record (ht c) { neigh_off = dis }
            ≡ record { neigh_off = o; key_fp_tag = tag; kv_size = size; pba = pba } =
          sym moved_lem ∙ sym (update_self ht there (moved ht c dis)) ∙ ap mid (sym q) ∙ e in
        let same : dis ≡ o = ap (λ (r : Entry). r.neigh_off) e' in
        let home_eq : home ≡ home_of ht c =
          slot_inj home (home_of ht c) o lt home-lt near' (q ∙ ap (slot (home_of ht c)) same) in
        (
          (ht c).neigh_off,
          (
            ranges.neigh_off,
            ap (λ h. ht (slot h (ht c).neigh_off)) home_eq
                ∙ ap ht (slot-home ht c (omega arith) ranges.neigh_off)
                ∙ ap (λ (r : Entry). record r { neigh_off = (ht c).neigh_off }) e',
          ),
        )

    -- It is held for that home afterwards.
    moved_to :
        {home tag size pba o : ℕ}
        → home < nr_entry
        → slot home o ≡ c
        → HoldsAt ht home tag size pba o
        → Holds (update mid c new) home tag size pba
    moved_to {home} {tag} {size} {pba} {o} lt q (near', e) =
        let e' : ht c ≡ record { neigh_off = o; key_fp_tag = tag; kv_size = size; pba = pba } =
          ap ht (sym q) ∙ e in
        let home_eq : home_of ht c ≡ home =
          ap (home_of ht) (sym q)
          ∙ home-slot ht home o lt near' (ap (λ (r : Entry). r.neigh_off) e) in
        let slot_eq : slot home dis ≡ there = ap (λ h. slot h dis) (sym home_eq) in
        (
          dis,
          (
            hop,
            ap (update mid c new) slot_eq
                ∙ update_ne mid c there new (λ k. taken (ap (λ j. (ht j).pba) (sym k) ∙ was))
                ∙ update_self ht there (moved ht c dis)
                ∙ moved_lem
                ∙ ap (λ (r : Entry). record r { neigh_off = dis }) e',
          ),
        )

    emptied-Holds :
        (home tag size pba : ℕ)
        → home < nr_entry
        → pba ≢ pba_invalid
        → Holds (update mid c new) home tag size pba
          ↔ (IsNew idx new home tag size pba ⊎ Holds ht home tag size pba)
    emptied-Holds home tag size pba lt live = (
      λ (o, h). elim (ℕ_discrete (slot home o) c) [
        | yes q ↦ inl (at_c mid lt q h)
        | no ne ↦ inr (elim (ℕ_discrete (slot home o) there) [
          | yes q ↦ moved_from lt q ((kept mid home o ne).1 h)
          | no ne' ↦ (
            o,
            (
              h.0,
              sym (update_ne ht there (slot home o) (moved ht c dis) ne')
                  ∙ ((kept mid home o ne).1 h).1,
            ),
          )
        ])
      ],
      λ s. elim s [
        | inl n ↦ IsNew-Holds mid n
        | inr (o, h) ↦ elim (ℕ_discrete (slot home o) c) [
          | yes q ↦ moved_to lt q h
          | no ne ↦ (
            o,
            (kept mid home o ne).0 (
              h.0,
              update_ne ht there (slot home o) (moved ht c dis)
                    (live_ne ht (ap (λ (r : Entry). r.pba) h.1) live was)
                  ∙ h.1,
            ),
          )
        ]
      ],
    )

-- The table that `hopscotch_set` leaves where `find_free_entry` gives a slot: it holds the new
-- record and the live records that it held before, each for its home, and no other live record.
pub find_free_entry-Holds :
    (ht : Table) (idx free : ℕ) (ht' : Table) (new : Entry)
    → ((i : ℕ) → InRange (ht i))
    → idx < nr_entry
    → find_free_entry ht idx ≡ some (free, ht')
    → new.neigh_off ≡ free
    → (home tag size pba : ℕ) → home < nr_entry
    → pba ≢ pba_invalid
    → Holds (update ht' (slot idx free) new) home tag size pba
      ↔ (IsNew idx new home tag size pba ⊎ Holds ht home tag size pba)
find_free_entry-Holds ht idx free ht' new ranges at e off home tag size pba lt live = elim found.1 [
  | inl (was, same) ↦
      subst
        (λ t.
          Holds (update t (slot idx free) new) home tag size pba
          ↔ (IsNew idx new home tag size pba ⊎ Holds ht home tag size pba))
        (sym same) (free-Holds ht idx free new found.0 at off was home tag size pba lt live)
  | inr (full, (dis, m)) ↦
      subst
        (λ t.
          Holds (update t (slot idx free) new) home tag size pba
          ↔ (IsNew idx new home tag size pba ⊎ Holds ht home tag size pba))
        (sym m.table)
        (emptied-Holds ht idx free new found.0 at off dis (ranges (slot idx free)) m.further m.near
          m.was_free (full free found.0) home tag size pba lt live)
]
  where
    found : FindsFree ht idx (some (free, ht'))
    found = subst (FindsFree ht idx) e (find_free_entry-FindsFree ht idx ranges)
