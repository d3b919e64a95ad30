-- ===== src/Keygen/Choice.antt =====
-- Which key `get_next_key` of src/keygen.c takes.
use native.Mathlib.Nat.{mod-lt, mul-lt-mul_of_pos_left, mul-pos}
use udepot_hopscotch.Base.{
  ℕ, ◌+◌, ◌*◌, ◌/◌, ◌%◌, ◌^◌, ◌≤◌, ◌<◌, ◌≡◌, refl, ap, ◌⊎◌, inl, inr, true, false, arith, ltb, ◌==◌,
  Bool-cases,
}
use udepot_hopscotch.Keygen.{
  Keygen, KeyDist, locality, NextKey, key, null, fault, hotset, coldset, draw, keygen_init,
  shuffle_key_pool, set_key_dist, get_next_key,
}

-- Both sets have keys, and together they are the pool.
pub record IsSized (kg : Keygen) : Type 0 where
  pub hot : 0 < kg.nr_hotset
  pub cold : 0 < kg.nr_coldset
  pub all : kg.nr_hotset + kg.nr_coldset ≡ kg.nr_key
  pub word : kg.nr_key < 2 ^ 64

-- The sizes of the sets, for a ratio of 1 to 99 percent.
sizes :
    (nr_key ratio : ℕ)
    → 100 ≤ nr_key
    → nr_key < 2 ^ 64
    → 0 < ratio
    → ratio < 100
    → (0 < hotset nr_key ratio)
      × (0 < coldset nr_key (hotset nr_key ratio))
      × (hotset nr_key ratio + coldset nr_key (hotset nr_key ratio) ≡ nr_key)
sizes nr_key ratio enough word pos small =
    let hundreds : 0 < nr_key / 100 = omega arith in
    let below : nr_key / 100 * ratio < nr_key / 100 * 100 = mul-lt-mul_of_pos_left small hundreds in
    let some_hot : 0 < nr_key / 100 * ratio = mul-pos hundreds pos in
    (omega arith, omega arith, omega arith)

-- With at least 100 keys, `keygen_init` and `set_key_dist` with a hot set of 1 to 99 percent leave two
-- sets that both have keys and together are the pool.
pub set_key_dist-IsSized :
    (rand : ℕ → ℕ) (nr_key key_size query_ratio hotset_ratio : ℕ) (dist : KeyDist)
    → 100 ≤ nr_key
    → nr_key < 2 ^ 64
    → 0 < hotset_ratio
    → hotset_ratio < 100
    → IsSized (set_key_dist rand (keygen_init rand nr_key key_size) dist query_ratio hotset_ratio)
unfolding keygen_init set_key_dist shuffle_key_pool
set_key_dist-IsSized rand n s q h KeyDist.uniform enough word pos small =
    let (hot, cold, all) = sizes n 50 enough word (omega arith) (omega arith) in
    record { hot = hot; cold = cold; all = all; word = word }
set_key_dist-IsSized rand n s q h KeyDist.hotspot enough word pos small =
    let (hot, cold, all) = sizes n 50 enough word (omega arith) (omega arith) in
    record { hot = hot; cold = cold; all = all; word = word }
set_key_dist-IsSized rand n s q h KeyDist.locality enough word pos small =
    let (hot, cold, all) = sizes n h enough word pos small in
    record { hot = hot; cold = cold; all = all; word = word }

-- The key is the one at an index of the range.
abbrev pub Draws : Keygen → NextKey → ℕ → ℕ → Type 0
Draws kg k lo hi = (j : ℕ) × (lo ≤ j) × (j < hi) × (k ≡ key (kg.key_pool j))

draw-Draws :
    (rand : ℕ → ℕ) (kg : Keygen) (first nr hi c : ℕ)
    → 0 < nr
    → first + nr ≡ hi
    → hi < 2 ^ 64
    → Draws kg (draw rand kg first nr c) first hi
draw-Draws rand kg first nr hi c pos all word =
    let lt : rand c % nr < nr = mod-lt (rand c) pos in
    let some_nr : (nr == 0) ≡ false = ground arith in
    let plain : (first + rand c % nr) % 2 ^ 64 ≡ first + rand c % nr = omega arith in
    (first + rand c % nr, omega arith, omega arith, rw (some_nr, plain) refl)

-- What `get_next_key` promises for each distribution.
abbrev pub Chosen : (ℕ → ℕ) → Keygen → NextKey → KeyDist → Type 0
Chosen rand kg k KeyDist.uniform = Draws kg k 0 kg.nr_key
Chosen rand kg k KeyDist.locality =
    ((rand kg.rands % 100 < kg.query_ratio) × Draws kg k 0 kg.nr_hotset)
    ⊎ ((kg.query_ratio ≤ rand kg.rands % 100) × Draws kg k kg.nr_hotset kg.nr_key)
Chosen rand kg k KeyDist.hotspot = k ≡ null

-- Where both sets have keys, `get_next_key` divides by no zero and takes a key within the pool: any one
-- if the distribution is uniform; with locality, one of the hot set if the first draw is below the ratio
-- of queries, and one of the cold set otherwise; and none for the distribution that is not known.
pub get_next_key-Chosen :
    (rand : ℕ → ℕ) (kg : Keygen) → IsSized kg → Chosen rand kg (get_next_key rand kg).0 kg.key_dist
unfolding get_next_key
get_next_key-Chosen rand kg v = go kg.key_dist refl
  where
    hot : Draws kg (draw rand kg 0 kg.nr_hotset (kg.rands + 1)) 0 kg.nr_hotset
    hot =
        draw-Draws rand kg 0 kg.nr_hotset kg.nr_hotset (kg.rands + 1) v.hot (omega arith)
          (omega (arith, v.all, v.word))

    cold : Draws kg (draw rand kg kg.nr_hotset kg.nr_coldset (kg.rands + 1)) kg.nr_hotset kg.nr_key
    cold =
        draw-Draws rand kg kg.nr_hotset kg.nr_coldset kg.nr_key (kg.rands + 1) v.cold v.all v.word

    go : (d : KeyDist) → kg.key_dist ≡ d → Chosen rand kg (get_next_key rand kg).0 d
    go KeyDist.uniform e =
        rw (get_next_key, e)
          (draw-Draws rand kg 0 kg.nr_key kg.nr_key kg.rands (omega (arith, v.hot, v.all))
            (omega arith) v.word)
    go KeyDist.locality e = elim (Bool-cases (ltb (rand kg.rands % 100) kg.query_ratio)) [
      | inl y ↦ rw (get_next_key, e, y) (inl (ground arith, hot))
      | inr n ↦ rw (get_next_key, e, n) (inr (ground arith, cold))
    ]
    go KeyDist.hotspot e = rw (get_next_key, e) refl

-- With fewer than 100 keys the hot set is empty, whatever the ratio: with locality, `get_next_key` divides
-- by 0 as soon as a draw is below the ratio of queries.
pub get_next_key-fault :
    (rand : ℕ → ℕ) (nr_key key_size query_ratio hotset_ratio : ℕ)
    → nr_key < 100
    → rand
          (set_key_dist rand
            (keygen_init rand nr_key key_size)
            locality
            query_ratio
            hotset_ratio).rands
        % 100
      < query_ratio
    → (get_next_key rand
        (set_key_dist rand (keygen_init rand nr_key key_size) locality query_ratio hotset_ratio)).0
      ≡ fault
unfolding get_next_key set_key_dist shuffle_key_pool keygen_init
get_next_key-fault rand nr_key key_size query_ratio hotset_ratio few below =
    let kg =
      set_key_dist rand (keygen_init rand nr_key key_size) locality query_ratio hotset_ratio in
    let yes_hot : ltb (rand kg.rands % 100) query_ratio ≡ true = ground arith in
    let no_hundred : nr_key / 100 ≡ 0 = omega arith in
    let zero_product : 0 * hotset_ratio ≡ 0 = omega arith in
    let none_hot : hotset nr_key hotset_ratio ≡ 0 =
      omega (arith, zero_product, ap (λ x. x * hotset_ratio) no_hundred) in
    rw (get_next_key, yes_hot, none_hot) refl
