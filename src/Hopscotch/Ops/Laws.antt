-- ===== src/Hopscotch/Ops/Laws.antt =====
-- What one call of `hopscotch_set` does to the table, on each way that it ends.
use mathlib.Core.Path.{subst}
use udepot_hopscotch.Base.{
  ℕ, zero, suc, ◌+◌, ◌/◌, ◌<◌, ◌≡◌, ◌≢◌, refl, ◌⊎◌, ◌↔◌, inl, inr, none, some, List, arith, ◌∙◌,
  sym, ap, update, Option-cases,
}
use udepot_hopscotch.Request.{HopStep}
use udepot_hopscotch.Hopscotch.Table.{
  Table, Entry, slot, empty_entry, nr_entry, find_matching_tag, find_free_entry, fill_entry,
  max_hop, pba_invalid,
}
use udepot_hopscotch.Base.First.{IsFirst}
use udepot_hopscotch.Hopscotch.Table.Search.{HasTag, find_matching_tag-IsFirst}
use udepot_hopscotch.Hopscotch.Table.Free.{InRange, FindsFree, find_free_entry-FindsFree}
use udepot_hopscotch.Hopscotch.Table.Place.{Holds, find_free_entry-Holds}
use udepot_hopscotch.Hopscotch.Ops.{
  HopRequest, params_of, idx_of, tag_of, grain_unit, Io, insert_key_match, insert_key_mismatch,
  set_from, hopscotch_set, hopscotch_get, lookup_key_mismatch,
}

finds_zero :
    (ht : Table) (idx tag : ℕ)
    → (ht (slot idx 0)).key_fp_tag ≡ tag
    → find_matching_tag ht idx 0 tag ≡ some 0
finds_zero ht idx tag e = elim (Option-cases (find_matching_tag ht idx 0 tag)) [
  | inl q ↦
      absurd (subst (IsFirst (HasTag ht idx tag) 0 max_hop) q first 0 (omega arith) (omega arith) e)
  | inr (zero, q) ↦ q
  | inr (suc o, q) ↦
      absurd
        ((subst (IsFirst (HasTag ht idx tag) 0 max_hop) q first).3 0 (omega arith) (omega arith) e)
]
  where
    first : IsFirst (HasTag ht idx tag) 0 max_hop (find_matching_tag ht idx 0 tag)
    first = find_matching_tag-IsFirst ht idx 0 tag (omega arith)

abbrev pba_of : Io → ℕ
pba_of (Io.write p s v) = p
pba_of _ = 0

abbrev size_of : Io → ℕ
size_of (Io.write p s v) = s
size_of _ = 0

module _ {S : Type 0} (get_next_pba : S → ℕ → ℕ × S) where
  -- How a call that fills a slot found by `find_free_entry` ends.
  record Placed (ht : Table) (dev : S) (req : HopRequest) (ht' : Table) (pba size : ℕ)
      : Type 0 where
    free : ℕ
    base : Table
    chosen : find_free_entry ht (idx_of req.key) ≡ some (free, base)
    new : Entry
    off : new.neigh_off ≡ free
    tag : new.key_fp_tag ≡ tag_of req.key
    grains : new.kv_size ≡ size
    at : new.pba ≡ pba
    table : ht' ≡ update base (slot (idx_of req.key) free) new

  mismatch-Placed :
      (ht : Table) (dev : S) (req : HopRequest) (o : ℕ) {ht' : Table} {dev' : S} {req' : HopRequest}
      {pba size : ℕ} {value : List ℕ}
      → ((i : ℕ) → InRange (ht i))
      → insert_key_mismatch get_next_pba ht dev req o ≡ (ht', dev', req', Io.write pba size value)
      → Placed ht dev req ht' pba size
  unfolding insert_key_mismatch insert_key_match fill_entry
  mismatch-Placed ht dev req o {ht'} {dev'} {req'} {pba} {size} {value} ranges run =
      elim (Option-cases (find_matching_tag ht (idx_of req.key) o (tag_of req.key))) [
        | inr (found, e) ↦
            let bad : Io.read (ht (slot (idx_of req.key) found)).pba
                  (ht (slot (idx_of req.key) found)).kv_size
                ≡ Io.write pba size value =
              ap (λ (t : Table × S × HopRequest × Io). t.3) (rw (insert_key_mismatch, e) at run) in
            cc
        | inl e ↦ elim (Option-cases (find_free_entry ht (idx_of req.key))) [
          | inl e' ↦
              let bad : Io.abort ≡ Io.write pba size value =
                ap (λ (t : Table × S × HopRequest × Io). t.3)
                  (rw (insert_key_mismatch, e, e') at run) in
              cc
          | inr ((free, base), e') ↦
              let run' : insert_key_match get_next_pba base dev req free
                  ≡ (ht', dev', req', Io.write pba size value) =
                rw (insert_key_mismatch, e, e') at run in
              let near : free < max_hop =
                (subst (FindsFree ht (idx_of req.key)) e'
                  (find_free_entry-FindsFree ht (idx_of req.key) ranges)).0 in
              record {
                free = free;
                base = base;
                chosen = e';
                new =
                    fill_entry free (tag_of req.key) (req.value.len / grain_unit)
                      (get_next_pba dev req.value.len).0;
                off = omega arith;
                tag = omega arith;
                grains = ap (λ (t : Table × S × HopRequest × Io). size_of t.3) run';
                at = ap (λ (t : Table × S × HopRequest × Io). pba_of t.3) run';
                table = sym (ap (λ (t : Table × S × HopRequest × Io). t.0) run');
              }
        ]
      ]

  set_from-Placed :
      (step : HopStep) (ht : Table) (dev : S) (req : HopRequest) {ht' : Table} {dev' : S}
      {req' : HopRequest} {pba size : ℕ} {value : List ℕ}
      → ((i : ℕ) → InRange (ht i))
      → step ≢ HopStep.key_match
      → set_from get_next_pba step ht dev req ≡ (ht', dev', req', Io.write pba size value)
      → Placed ht dev req ht' pba size
  unfolding set_from
  set_from-Placed HopStep.init ht dev req ranges ne run = mismatch-Placed ht dev req 0 ranges run
  set_from-Placed HopStep.key_match ht dev req ranges ne run = absurd (ne refl)
  set_from-Placed HopStep.key_mismatch ht dev req ranges ne run =
      mismatch-Placed ht dev req ((params_of req).offset + 1) ranges run

  -- A call of `hopscotch_set` that ends in a write, and does not come from a key match, adds to the
  -- table the record for the key's home and tag with the address and size of that write. Every live
  -- record from before is still held, for its own home, and no other live record is.
  pub hopscotch_set-Holds :
      (ht : Table) (dev : S) (req : HopRequest) {ht' : Table} {dev' : S} {req' : HopRequest}
      {pba size : ℕ} {value : List ℕ}
      → ((i : ℕ) → InRange (ht i))
      → (params_of req).insert_step ≢ HopStep.key_match
      → hopscotch_set get_next_pba ht dev req ≡ (ht', dev', req', Io.write pba size value)
      → (home tag size' pba' : ℕ) → home < nr_entry
      → pba' ≢ pba_invalid
      → Holds ht' home tag size' pba' ↔ (
          ((home ≡ idx_of req.key) × (tag ≡ tag_of req.key) × (size' ≡ size) × (pba' ≡ pba))
          ⊎ Holds ht home tag size' pba')
  unfolding hopscotch_set
  hopscotch_set-Holds ht dev req {ht'} {pba = pba} {size = size} ranges ne run home tag size' pba'
        lt live =
      let p = set_from-Placed (params_of req).insert_step ht dev _ ranges ne run in
      let law =
        find_free_entry-Holds ht (idx_of req.key) p.free p.base p.new ranges (omega arith) p.chosen
          p.off home tag size' pba' lt live in
      subst
        (λ (t : Table). Holds t home tag size' pba' ↔ (
          ((home ≡ idx_of req.key) × (tag ≡ tag_of req.key) × (size' ≡ size) × (pba' ≡ pba))
          ⊎ Holds ht home tag size' pba'))
        (sym p.table)
        (
          λ h. elim (law.0 h) [
            | inl n ↦ inl (n.0, n.1 ∙ p.tag, n.2 ∙ p.grains, n.3 ∙ p.at)
            | inr old ↦ inr old
          ],
          λ s. elim s [
            | inl n ↦ law.1 (inl (n.0, n.1 ∙ sym p.tag, n.2 ∙ sym p.grains, n.3 ∙ sym p.at))
            | inr old ↦ law.1 (inr old)
          ],
        )

  -- On a key whose tag is 0, a new request meets the empty entries: the one at the key's index has the
  -- tag of nothing, and the request reads a pair of no size at the invalid address.
  pub hopscotch_set-empty_entry :
      (ht : Table) (dev : S) (req : HopRequest)
      → req.params ≡ none
      → tag_of req.key ≡ 0
      → ht (slot (idx_of req.key) 0) ≡ empty_entry
      → ((hopscotch_set get_next_pba ht dev req).3 ≡ Io.read pba_invalid 0)
        × ((hopscotch_get ht req).1 ≡ Io.read pba_invalid 0)
  unfolding hopscotch_set insert_key_mismatch hopscotch_get lookup_key_mismatch
  hopscotch_set-empty_entry ht dev req new zero_tag empty =
      let at_zero =
        finds_zero ht (idx_of req.key) (tag_of req.key)
          (ap (λ (e : Entry). e.key_fp_tag) empty ∙ sym zero_tag) in
      ground (arith, at_zero, empty, new)
