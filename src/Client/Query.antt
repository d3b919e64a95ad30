-- ===== src/Client/Query.antt =====
-- What `run_bench` of src/client.cc sends.
use mathlib.Core.Path.{subst}
use udepot_hopscotch.Base.{
  ℕ, zero, suc, ◌<◌, ◌≡◌, ◌≢◌, refl, ◌∙◌, sym, ap, inl, inr, Option, none, some, List, [], ◌∷◌,
  arith, length,
}
use udepot_hopscotch.Handler.{NetReq}
use udepot_hopscotch.Keygen.{
  Keygen, KeyDist, hotspot, NextKey, key, shuffle_key_pool, set_key_dist, get_next_key,
}
use udepot_hopscotch.Keygen.Shuffle.{IsRearranged, set_key_dist-IsRearranged}
use udepot_hopscotch.Keygen.Choice.{IsSized, Chosen, get_next_key-Chosen}
use udepot_hopscotch.Client.{query_request, next_seq, run_queries, run_bench}

-- `get_next_key` changes nothing but the calls of `rand`.
keeps :
    (rand : ℕ → ℕ) (kg : Keygen) → (c : ℕ) × ((get_next_key rand kg).1 ≡ record kg { rands = c })
unfolding get_next_key
keeps rand kg = choose kg.key_dist
  where
    choose :
        (d : KeyDist)
        → (c : ℕ) × ((get_next_key rand (record kg { key_dist = d })).1
            ≡ record kg { key_dist = d; rands = c })
    choose KeyDist.uniform = (_, refl)
    choose KeyDist.locality = (_, refl)
    choose KeyDist.hotspot = (_, refl)

-- The key is one of the pool.
InPool : Keygen → NextKey → Type 0
InPool kg k = (j : ℕ) × (j < kg.nr_key) × (k ≡ key (kg.key_pool j))

drawn :
    (rand : ℕ → ℕ) (kg : Keygen)
    → IsSized kg
    → kg.key_dist ≢ hotspot
    → InPool kg (get_next_key rand kg).0
unfolding InPool
drawn rand kg v known = choose kg.key_dist refl (get_next_key-Chosen rand kg v)
  where
    choose :
        (d : KeyDist)
        → kg.key_dist ≡ d
        → Chosen rand kg (get_next_key rand kg).0 d
        → InPool kg (get_next_key rand kg).0
    choose KeyDist.uniform e (j, lo, lt, k) = (j, lt, k)
    choose KeyDist.locality e (inl (hot, (j, lo, lt, k))) = (j, omega (arith, lt, v.all), k)
    choose KeyDist.locality e (inr (cold, (j, lo, lt, k))) = (j, lt, k)
    choose KeyDist.hotspot e k = absurd (known e)

-- Each request asks for one of the first `nr_key` keys of a pool; they are numbered in a row after
-- `seq_num`.
abbrev pub Queries : (ℕ → List ℕ) → ℕ → ℕ → List NetReq → Type 0
Queries pool nr_key seq_num [] = Unit {0}
Queries pool nr_key seq_num (nr ∷ nrs) =
    ((j : ℕ) × (j < nr_key) × (nr ≡ query_request (pool j) (next_seq seq_num)))
    × Queries pool nr_key (next_seq seq_num) nrs

-- What is done with the next key.
after_key : (ℕ → ℕ) → ℕ → ℕ → NextKey × Keygen → Option (List NetReq × Keygen × ℕ)
after_key rand n seq_num r = elim r.0 [
  | NextKey.key k ↦ elim (run_queries rand n r.1 (next_seq seq_num)) [
    | none ↦ none
    | some x ↦ some (query_request k (next_seq seq_num) ∷ x.0, x.1, x.2)
  ]
  | NextKey.null ↦ none
  | NextKey.fault ↦ none
]

run_queries_total :
    (rand : ℕ → ℕ) (n : ℕ) (kg : Keygen) (seq_num : ℕ)
    → IsSized kg
    → kg.key_dist ≢ hotspot
    → (nrs : List NetReq) × (last : Keygen × ℕ) × (run_queries rand n kg seq_num
        ≡ some (nrs, last.0, last.1))
      × (length nrs ≡ n)
      × Queries kg.key_pool kg.nr_key seq_num nrs
unfolding run_queries after_key InPool
run_queries_total rand zero kg seq_num v known = ([], (kg, seq_num), refl, refl, tt)
run_queries_total rand (suc n) kg seq_num v known =
    let (c, same) = keeps rand kg in
    let (j, lt, k) = drawn rand kg v known in
    let kg' : Keygen = record kg { rands = c } in
    let v' : IsSized kg' = record { hot = v.hot; cold = v.cold; all = v.all; word = v.word } in
    let (nrs, last, e, count, rest) = run_queries_total rand n kg' (next_seq seq_num) v' known in
    let next : get_next_key rand kg ≡ (key (kg.key_pool j), kg') = λ i. (k i, same i) in
    (
      query_request (kg.key_pool j) (next_seq seq_num) ∷ nrs,
      last,
      ap (after_key rand n seq_num) next ∙ rw (after_key, e) refl,
      ap suc count,
      ((j, lt, refl), rest),
    )

rearranged-Queries :
    (n : ℕ) (pool pool' : ℕ → List ℕ) (seq_num : ℕ) (nrs : List NetReq)
    → IsRearranged n pool pool'
    → Queries pool' n seq_num nrs
    → Queries pool n seq_num nrs
rearranged-Queries n pool pool' seq_num [] m q = tt
rearranged-Queries n pool pool' seq_num (nr ∷ nrs) m ((j, lt, e), q) = (
  (m.to j, m.to_lt j lt, e ∙ ap (λ k. query_request k (next_seq seq_num)) (m.same j)),
  rearranged-Queries n pool pool' (next_seq seq_num) nrs m q,
)

set_fields :
    (rand : ℕ → ℕ) (kg : Keygen) (dist : KeyDist) (query_ratio hotset_ratio : ℕ)
    → ((set_key_dist rand kg dist query_ratio hotset_ratio).key_dist ≡ dist)
      × ((set_key_dist rand kg dist query_ratio hotset_ratio).nr_key ≡ kg.nr_key)
unfolding set_key_dist shuffle_key_pool
set_fields rand kg KeyDist.uniform q h = (refl, refl)
set_fields rand kg KeyDist.locality q h = (refl, refl)
set_fields rand kg KeyDist.hotspot q h = (refl, refl)

-- Where `set_key_dist` leaves two sets with keys, for a distribution that is known, `run_bench` sends as
-- many requests as it is told, numbered in a row; each is a request to get a key of the pool that the
-- client loaded from; and it divides by no zero and copies from no NULL.
pub run_bench_total :
    (rand : ℕ → ℕ) (nr_query : ℕ) (kg : Keygen) (dist : KeyDist)
    (query_ratio hotset_ratio seq_num : ℕ)
    → IsSized (set_key_dist rand kg dist query_ratio hotset_ratio)
    → dist ≢ hotspot
    → (nrs : List NetReq) × (last : Keygen × ℕ) × (run_bench rand nr_query kg dist query_ratio
          hotset_ratio seq_num
        ≡ some (nrs, last.0, last.1))
      × (length nrs ≡ nr_query)
      × Queries kg.key_pool kg.nr_key seq_num nrs
unfolding run_bench
run_bench_total rand nr_query kg dist q h seq_num v known =
    let set = set_key_dist rand kg dist q h in
    let (dist_set, size) = set_fields rand kg dist q h in
    let (nrs, last, e, count, queries) =
      run_queries_total rand nr_query set seq_num v (λ hot. known (sym dist_set ∙ hot)) in
    let here = subst (λ n. Queries set.key_pool n seq_num nrs) size queries in
    (
      nrs,
      last,
      e,
      count,
      rearranged-Queries kg.nr_key kg.key_pool set.key_pool seq_num nrs
          (set_key_dist-IsRearranged rand kg dist q h) here,
    )
