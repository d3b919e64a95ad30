-- ===== src/Keygen/Shuffle.antt =====
-- What `shuffle_key_pool` of src/keygen.c does to the pool.
use native.Mathlib.Nat.{mod-lt}
use udepot_hopscotch.Base.{
  ℕ, zero, suc, ◌+◌, ◌%◌, ◌≤◌, ◌<◌, ◌≡◌, refl, ◌∙◌, ap, List, arith, ◌==◌, if◌then◌else◌,
}
use udepot_hopscotch.Keygen.{Keygen, KeyDist, swap, shuffle, shuffle_key_pool, set_key_dist}

-- The second pool has the first `n` keys of the first one in another order: `to` and `from` are inverse.
pub record IsRearranged {A : Type 0} (n : ℕ) (pool pool' : ℕ → A) : Type 0 where
  pub to : ℕ → ℕ
  pub from : ℕ → ℕ
  pub to_lt : (i : ℕ) → i < n → to i < n
  pub from_lt : (i : ℕ) → i < n → from i < n
  pub to_from : (i : ℕ) → to (from i) ≡ i
  pub from_to : (i : ℕ) → from (to i) ≡ i
  pub same : (i : ℕ) → pool' i ≡ pool (to i)

exchange : ℕ → ℕ → ℕ → ℕ
exchange i pos k = if k == pos then i else if k == i then pos else k

exchange_lt : (n i pos k : ℕ) → i < n → pos < n → k < n → exchange i pos k < n
unfolding exchange
exchange_lt n i pos k a b lt = ground arith

exchange_twice : (i pos k : ℕ) → exchange i pos (exchange i pos k) ≡ k
unfolding exchange
exchange_twice i pos k = ground arith

module _ {A : Type 0} where
  same_pool : (n : ℕ) (pool : ℕ → A) → IsRearranged n pool pool
  same_pool n pool = record {
    to = λ i. i;
    from = λ i. i;
    to_lt = λ i lt. lt;
    from_lt = λ i lt. lt;
    to_from = λ i. refl;
    from_to = λ i. refl;
    same = λ i. refl;
  }

  then_pool : (n : ℕ) (p q r : ℕ → A) → IsRearranged n p q → IsRearranged n q r → IsRearranged n p r
  then_pool n p q r a b = record {
    to = λ i. a.to (b.to i);
    from = λ i. b.from (a.from i);
    to_lt = λ i lt. a.to_lt (b.to i) (b.to_lt i lt);
    from_lt = λ i lt. b.from_lt (a.from i) (a.from_lt i lt);
    to_from = λ i. ap a.to (b.to_from (a.from i)) ∙ a.to_from i;
    from_to = λ i. ap b.from (a.from_to (b.to i)) ∙ b.from_to i;
    same = λ i. b.same i ∙ a.same (b.to i);
  }

  swap_same : (pool : ℕ → A) (i pos k : ℕ) → swap pool i pos k ≡ pool (exchange i pos k)
  unfolding exchange
  swap_same pool i pos k = ground arith

  swap-IsRearranged :
      (n i pos : ℕ) (pool : ℕ → A) → i < n → pos < n → IsRearranged n pool (swap pool i pos)
  swap-IsRearranged n i pos pool a b = record {
    to = exchange i pos;
    from = exchange i pos;
    to_lt = λ k lt. exchange_lt n i pos k a b lt;
    from_lt = λ k lt. exchange_lt n i pos k a b lt;
    to_from = exchange_twice i pos;
    from_to = exchange_twice i pos;
    same = swap_same pool i pos;
  }

  pub shuffle-IsRearranged :
      (rand : ℕ → ℕ) (nr_key n i c : ℕ) (pool : ℕ → A)
      → i + n ≤ nr_key
      → IsRearranged nr_key pool (shuffle rand nr_key n i c pool)
  unfolding shuffle
  shuffle-IsRearranged rand nr_key zero i c pool le = same_pool nr_key pool
  shuffle-IsRearranged rand nr_key (suc n) i c pool le =
      let next = swap pool i (rand c % nr_key) in
      then_pool nr_key pool next (shuffle rand nr_key n (i + 1) (c + 1) next)
        (swap-IsRearranged nr_key i (rand c % nr_key) pool (omega arith)
          (mod-lt (rand c) (omega arith)))
        (shuffle-IsRearranged rand nr_key n (i + 1) (c + 1) next (omega arith))

-- Whatever the distribution, the ratios and the numbers that `rand` gives, `set_key_dist` leaves the
-- keys of the pool in it, in another order at most: none is lost and none doubled.
pub set_key_dist-IsRearranged :
    (rand : ℕ → ℕ) (kg : Keygen) (dist : KeyDist) (query_ratio hotset_ratio : ℕ)
    → IsRearranged kg.nr_key kg.key_pool
        (set_key_dist rand kg dist query_ratio hotset_ratio).key_pool
unfolding set_key_dist shuffle_key_pool
set_key_dist-IsRearranged rand kg KeyDist.uniform q h = same_pool kg.nr_key kg.key_pool
set_key_dist-IsRearranged rand kg KeyDist.hotspot q h = same_pool kg.nr_key kg.key_pool
set_key_dist-IsRearranged rand kg KeyDist.locality q h =
    let mix = λ (c : ℕ) (pool : ℕ → List ℕ).
      shuffle-IsRearranged rand kg.nr_key kg.nr_key 0 c pool (omega arith) in
    then_pool kg.nr_key kg.key_pool _ _ (mix kg.rands kg.key_pool) (
      then_pool kg.nr_key _ _ _ (mix (kg.rands + kg.nr_key) _)
        (mix (kg.rands + kg.nr_key + kg.nr_key) _))
