-- ===== src/Hopscotch/Drive/Set/Total.antt =====
-- A request to set a key ends: at the first entry of the hop whose pair has the key, overwritten; else
-- at the slot of `find_free_entry`; else in `abort()`.
use Prim.Native.Nat.{Ordering}
use mathlib.Core.Path.{subst}
use native.Mathlib.Decide.{dec_lt}
use udepot_hopscotch.Base.{
  ℕ, zero, suc, ◌+◌, ◌-◌, ◌≤◌, ◌<◌, ◌≡◌, refl, inl, inr, none, some, List, arith, ◌∙◌, sym, length,
  ◌≢◌, splice, length-splice, Option-cases, Bool-cases,
}
use udepot_hopscotch.Base.First.{IsFirst, IsFirst-skip}
use udepot_hopscotch.Pair.{keycmp_k_v}
use udepot_hopscotch.Pair.Compare.{keycmp_k_v-splice}
use udepot_hopscotch.Request.{ReqType, HopStep}
use udepot_hopscotch.Hopscotch.Table.{Table, find_matching_tag, find_free_entry, max_hop}
use udepot_hopscotch.Hopscotch.Table.Search.{HasTag, find_matching_tag-IsFirst}
use udepot_hopscotch.Hopscotch.Ops.{HopRequest, params_of, idx_of, tag_of}
use udepot_hopscotch.Hopscotch.Drive.{SetEnd, stored, aborted, run_set}
use udepot_hopscotch.Hopscotch.Drive.Set.{
  SetsFirst, insert_start, after, written-Writes, run_set-match, run_set-place, run_set-abort,
  run_set-read,
}
use udepot_hopscotch.Hopscotch.Drive.Get.{pair_at, Matches, Delivers, is_eq, is_eq-eq, is_eq-ne}

module _ {S : Type 0} (get_next_pba : S → ℕ → ℕ × S) (fetch : ℕ → ℕ → List ℕ) where
  -- Offsets that do not match, before the start.
  SetsFirst-skip :
      (ht : Table) (dev : S) (req : HopRequest) (lo mid : ℕ) (end : SetEnd S)
      → lo ≤ mid
      → ((i : ℕ) → lo ≤ i → i < mid → Matches fetch ht req.key i → ⊥)
      → SetsFirst get_next_pba fetch ht dev req mid end
      → SetsFirst get_next_pba fetch ht dev req lo end
  SetsFirst-skip ht dev req lo mid (stored ht' dev' pba size value) le miss (inl (o, h, w)) =
      inl (o, IsFirst-skip (Matches fetch ht req.key) lo mid max_hop (some o) le miss h, w)
  SetsFirst-skip ht dev req lo mid (stored ht' dev' pba size value) le miss (inr (h, w)) =
      inr (IsFirst-skip (Matches fetch ht req.key) lo mid max_hop none le miss h, w)
  SetsFirst-skip ht dev req lo mid aborted le miss (h, w) =
      (IsFirst-skip (Matches fetch ht req.key) lo mid max_hop none le miss h, w)
  SetsFirst-skip ht dev req lo mid SetEnd.unfinished le miss h = h

  module _ (ht : Table) (dev : S) where
    run_set-SetsFirst :
        (fuel : ℕ) (req : HopRequest)
        → (params_of req).insert_step ≢ HopStep.key_match
        → insert_start req ≤ max_hop
        → max_hop - insert_start req + 1 < fuel
        → req.type ≡ ReqType.set
        → req.key.len ≤ length req.key.key
        → req.key.len + 1 ≤ length req.value.value
        → Delivers fetch ht req
        → SetsFirst get_next_pba fetch ht dev req
            (insert_start req)
            (run_set fetch get_next_pba fuel ht dev req)
    run_set-SetsFirst zero req ne in_hop enough set in_array roomy ok = absurd (omega arith)
    run_set-SetsFirst (suc zero) req ne in_hop enough set in_array roomy ok = absurd (omega arith)
    run_set-SetsFirst (suc (suc fuel)) req ne in_hop enough set in_array roomy ok =
        elim (Option-cases (find_matching_tag ht (idx_of req.key) lo (tag_of req.key))) [
          | inl e ↦
              let missing =
                λ (i : ℕ) (a : lo ≤ i) (b : i < max_hop) (p : Matches fetch ht req.key i).
                  subst (IsFirst tagged lo max_hop) e first i a b p.0 in
              elim (Option-cases (find_free_entry ht (idx_of req.key))) [
                | inl e' ↦
                    rw (run_set-abort get_next_pba fetch ht dev (suc fuel) req ne e e')
                      (missing, e')
                | inr ((free, base), e') ↦
                    rw (run_set-place get_next_pba fetch ht dev (suc fuel) req ne free base e e') (
                      inr (
                        missing,
                        (
                          free,
                          base,
                          e',
                          written-Writes get_next_pba fetch dev req base free in_array roomy,
                        ),
                      ))
              ]
          | inr (o, e) ↦ rw (run_set-read get_next_pba fetch ht dev (suc fuel) req ne o set e) (
              let f = subst (IsFirst tagged lo max_hop) e first in
              let same =
                keycmp_k_v-splice req.key req.value.value (pair_at fetch ht req.key o)
                  (ok o f.1 f.2).0 (ok o f.1 f.2).1 in
              elim (Bool-cases (
                is_eq
                  (keycmp_k_v req.key (splice req.value.value 0 (pair_at fetch ht req.key o))))) [
                    | inl hit ↦
                        rw
                          (
                            hit,
                            run_set-match get_next_pba fetch ht dev fuel
                                (after fetch ht req o HopStep.key_match) refl,
                          )
                          (inl (
                            o,
                            (f.0, f.1, (f.2, sym same ∙ is_eq-eq _ hit), λ i a b p. f.3 i a b p.0),
                            written-Writes get_next_pba fetch dev
                                (after fetch ht req o HopStep.key_match) ht o in_array
                                (rw length-splice roomy),
                          ))
                    | inr miss ↦ rw miss (
                        SetsFirst-skip ht dev req lo (o + 1)
                          (run_set fetch get_next_pba (suc fuel) ht dev (next o)) (omega arith)
                          (λ i a b p. elim (dec_lt i o) [
                            | yes lt ↦ f.3 i a lt p.0
                            | no ge ↦
                                let at_o : i ≡ o = omega arith in
                                is_eq-ne _ miss (
                                  same
                                  ∙ subst
                                      (λ j.
                                        keycmp_k_v req.key (pair_at fetch ht req.key j)
                                        ≡ Ordering.eq)
                                      at_o p.1)
                          ])
                          (run_set-SetsFirst (suc fuel) (next o) (λ c. cc) (omega (arith, f.1))
                            (omega arith) set in_array (rw length-splice roomy)
                            (λ i lt tag. ((ok i lt tag).0, rw length-splice (ok i lt tag).1))))
                  ])
        ]
      where
        next : ℕ → HopRequest
        next o = after fetch ht req o HopStep.key_mismatch

        lo : ℕ
        lo = insert_start req

        tagged : ℕ → Type 0
        tagged = HasTag ht (idx_of req.key) (tag_of req.key)

        first :
            IsFirst tagged lo max_hop (find_matching_tag ht (idx_of req.key) lo (tag_of req.key))
        first = find_matching_tag-IsFirst ht (idx_of req.key) lo (tag_of req.key) in_hop

    -- Let the key fit its array and, with its length, the buffer of the request, and let every
    -- entry of the hop that has the tag of the key deliver a pair that is longer than the key and
    -- no longer than the buffer of the request. Then a new request to set ends within 34 calls.
    -- It overwrites the first entry of the hop that has the key's tag and whose pair has the key;
    -- where no entry of the hop is such, it fills the slot that `find_free_entry` gives, and
    -- aborts exactly where that gives none. What it writes has the key.
    pub run_set_total :
        (req : HopRequest)
        → req.type ≡ ReqType.set
        → req.params ≡ none
        → req.key.len ≤ length req.key.key
        → req.key.len + 1 ≤ length req.value.value
        → Delivers fetch ht req
        → SetsFirst get_next_pba fetch ht dev req 0
            (run_set fetch get_next_pba (max_hop + 2) ht dev req)
    run_set_total req set fresh in_array roomy ok =
        subst
          (λ lo.
            SetsFirst get_next_pba fetch ht dev req lo
              (run_set fetch get_next_pba (max_hop + 2) ht dev req))
          start
          (run_set-SetsFirst (max_hop + 2) req (λ c. ground (arith, fresh)) (omega (arith, start))
            (omega (arith, start)) set in_array roomy ok)
      where
        start : insert_start req ≡ 0
        start = rw fresh
