-- ===== src/Keygen/Load.antt =====
-- The keys that src/keygen.c gives out for loading.
use udepot_hopscotch.Base.{
  ℕ, zero, suc, ◌+◌, ◌≤◌, ◌≡◌, refl, ap, true, false, List, [], ◌∷◌, ◌++◌, arith, leb,
}
use udepot_hopscotch.Keygen.{Keygen, NextKey, key, null, get_next_key_for_load}

-- The results of `n` calls.
unfoldable pub load_all : ℕ → Keygen → List NextKey
load_all zero kg = []
load_all (suc n) kg =
    let (k, kg') = get_next_key_for_load kg in let rest = load_all n kg' in k ∷ rest

-- The keys of the pool from the index `i` on.
abbrev pub keys_from : (ℕ → List ℕ) → ℕ → ℕ → List NextKey
keys_from pool i zero = []
keys_from pool i (suc n) = key (pool i) ∷ keys_from pool (i + 1) n

abbrev pub nulls : ℕ → List NextKey
nulls zero = []
nulls (suc n) = null ∷ nulls n

overflow : (extra : ℕ) (kg : Keygen) → kg.nr_key ≤ kg.load_cnt → load_all extra kg ≡ nulls extra
unfolding load_all get_next_key_for_load
overflow zero kg le = refl
overflow (suc extra) kg le =
    let full : leb kg.nr_key kg.load_cnt ≡ true = ground arith in
    rw (load_all, full) (ap (λ l. null ∷ l) (overflow extra kg le))

-- The calls for loading give out the keys of the pool that are left, each once and in their order, and
-- NULL from then on.
pub load_all_lem :
    (left extra : ℕ) (kg : Keygen)
    → kg.load_cnt + left ≡ kg.nr_key
    → load_all (left + extra) kg ≡ keys_from kg.key_pool kg.load_cnt left ++ nulls extra
unfolding load_all get_next_key_for_load
load_all_lem zero extra kg e =
    let count : zero + extra ≡ extra = omega arith in rw count (overflow extra kg (omega arith))
load_all_lem (suc left) extra kg e =
    let count : suc left + extra ≡ suc (left + extra) = omega arith in
    let open_pool : leb kg.nr_key kg.load_cnt ≡ false = ground arith in
    let next : Keygen = record kg { load_cnt = kg.load_cnt + 1 } in
    rw (count, load_all, open_pool)
      (ap (λ l. key (kg.key_pool kg.load_cnt) ∷ l) (load_all_lem left extra next (omega arith)))
