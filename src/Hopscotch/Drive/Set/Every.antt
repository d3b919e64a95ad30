-- ===== src/Hopscotch/Drive/Set/Every.antt =====
-- The entries of the table that a request to set leaves, in src/hopscotch.c: each stood there before, at
-- its distance or moved, or is the new one.
use mathlib.Core.Path.{subst}
use native.Mathlib.Decide.{ℕ_discrete}
use udepot_hopscotch.Base.{ℕ, ◌<◌, ◌≡◌, inl, inr, some, List, ◌∙◌, sym, ap, update}
use udepot_hopscotch.Hopscotch.Table.{Table, Entry, slot, find_free_entry, max_hop}
use udepot_hopscotch.Hopscotch.Table.Free.{
  InRange, away, moved, FindsFree, find_free_entry-FindsFree,
}
use udepot_hopscotch.Hopscotch.Table.Place.{fill_in_range, update_self, update_ne}
use udepot_hopscotch.Hopscotch.Ops.{HopRequest, idx_of}
use udepot_hopscotch.Hopscotch.Drive.{stored}
use udepot_hopscotch.Hopscotch.Drive.Set.{SetsFirst, new_entry}

-- What every entry has that does not depend on the distance to its home, or allows any of a hop.
module _ (P : Entry → Type 0) where
  update_all :
      (t : Table) (j : ℕ) (e : Entry) → P e → ((i : ℕ) → P (t i)) → (i : ℕ) → P (update t j e i)
  update_all t j e new old i = elim (ℕ_discrete i j) [
    | yes q ↦ subst P (sym (ap (update t j e) q ∙ update_self t j e)) new
    | no ne ↦ subst P (sym (update_ne t j i e ne)) (old i)
  ]

  module _ (ht : Table) (ranges : (i : ℕ) → InRange (ht i)) (every : (i : ℕ) → P (ht i))
      (moves : (i d : ℕ) → d < max_hop → P (record (ht i) { neigh_off = d })) where
    base_all :
        (idx free : ℕ) (base : Table)
        → find_free_entry ht idx ≡ some (free, base)
        → (i : ℕ) → P (base i)
    base_all idx free base e i = elim found.1 [
      | inl (was, same) ↦ subst (λ (t : Table). P (t i)) (sym same) (every i)
      | inr (full, (dis, m)) ↦
          subst (λ (t : Table). P (t i)) (sym m.table)
            (update_all ht (away ht c dis) (moved ht c dis)
              (subst P
                (sym (
                  fill_in_range dis _ _ _ m.near (ranges c).key_fp_tag (ranges c).kv_size
                    (ranges c).pba))
                (moves c dis m.near))
              every i)
    ]
      where
        c : ℕ
        c = slot idx free

        found : FindsFree ht idx (some (free, base))
        found = subst (FindsFree ht idx) e (find_free_entry-FindsFree ht idx ranges)

    -- The new entry has it, at whatever offset it is written.
    pub stored_all :
        {S : Type 0} (get_next_pba : S → ℕ → ℕ × S) (fetch : ℕ → ℕ → List ℕ) (dev : S)
        (req : HopRequest) {ht' : Table} {dev' : S} {pba size : ℕ} {value : List ℕ}
        → ((o : ℕ) → P (new_entry get_next_pba dev req.key req.value.len o))
        → SetsFirst get_next_pba fetch ht dev req 0 (stored ht' dev' pba size value)
        → (i : ℕ) → P (ht' i)
    stored_all get_next_pba fetch dev req new (inl (o, first, w)) i =
        subst (λ (t : Table). P (t i)) (sym w.table)
          (update_all ht (slot (idx_of req.key) o) _ (new o) every i)
    stored_all get_next_pba fetch dev req new (inr (no_match, (free, base, e, w))) i =
        subst (λ (t : Table). P (t i)) (sym w.table)
          (update_all base (slot (idx_of req.key) free) _ (new free)
            (base_all (idx_of req.key) free base e) i)
