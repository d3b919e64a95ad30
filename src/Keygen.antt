-- ===== src/Keygen.antt =====
-- The generator of keys of src/keygen.c, by which a client chooses what to load and what to ask for.
-- The values of `rand` are a parameter, its n-th value at n; the state counts the calls. The pool is a
-- function of the index.
pub mod Shuffle
pub mod Choice
pub mod Load
use udepot_hopscotch.Base.{
  ℕ, zero, suc, ◌+◌, ◌-◌, ◌*◌, ◌/◌, ◌%◌, ◌^◌, List, [], ◌∷◌, ltb, leb, ◌==◌, if◌then◌else◌, update,
}

-- `enum key_dist_t`
pub data KeyDist : Type 0 where
  uniform : KeyDist
  locality : KeyDist
  hotspot : KeyDist

-- `struct keygen`, less its lock and its seed, which is always 0.
pub record Keygen : Type 0 where
  pub key_pool : ℕ → List ℕ
  pub nr_key : ℕ
  pub key_size : ℕ
  pub key_dist : KeyDist
  pub query_ratio : ℕ
  pub hotset_ratio : ℕ
  pub nr_hotset : ℕ
  pub nr_coldset : ℕ
  pub load_cnt : ℕ
  pub rands : ℕ

-- What `get_next_key` and `get_next_key_for_load` return: a key, NULL, or nothing, where the code
-- divides by 0.
pub data NextKey : Type 0 where
  key : List ℕ → NextKey
  null : NextKey
  fault : NextKey

-- The sizes of the two sets, of type `uint64_t`
abbrev pub hotset : ℕ → ℕ → ℕ
hotset nr_key hotset_ratio = nr_key / 100 * hotset_ratio % 2 ^ 64

abbrev pub coldset : ℕ → ℕ → ℕ
coldset nr_key nr_hotset = (nr_key + 2 ^ 64 - nr_hotset) % 2 ^ 64

-- The swap of `shuffle_key_pool`
abbrev pub swap : {A : Type 0} → (ℕ → A) → ℕ → ℕ → ℕ → A
swap pool i pos = update (update pool i (pool pos)) pos (pool i)

module _ (rand : ℕ → ℕ) where
  -- `n` digits of a key, from the call `c` of `rand` on.
  unfoldable pub digits : ℕ → ℕ → List ℕ
  digits zero c = []
  digits (suc n) c = (48 + rand c % 10) ∷ digits n (c + 1)

  -- The loop of `keygen_init`: `n` keys, from the index `i` and the call `c` of `rand` on.
  unfoldable pub fill_keys : ℕ → ℕ → ℕ → ℕ → (ℕ → List ℕ) → ℕ → List ℕ
  unfolding digits
  fill_keys key_size zero i c pool = pool
  fill_keys key_size (suc n) i c pool =
      let new_key = 117 ∷ 115 ∷ 101 ∷ 114 ∷ digits (key_size - 4) c in
      fill_keys key_size n (i + 1) (c + (key_size - 4)) (update pool i new_key)

  -- `keygen_init`, for keys of at least the 4 bytes that `strncpy` writes.
  unfoldable pub keygen_init : ℕ → ℕ → Keygen
  unfolding fill_keys
  keygen_init nr_key key_size = record {
    key_pool = fill_keys key_size nr_key 0 0 (λ i. []);
    nr_key = nr_key;
    key_size = key_size;
    key_dist = uniform;
    query_ratio = 50;
    hotset_ratio = 50;
    nr_hotset = hotset nr_key 50;
    nr_coldset = coldset nr_key (hotset nr_key 50);
    load_cnt = 0;
    rands = nr_key * (key_size - 4);
  }

  -- The loop of `shuffle_key_pool` from the index `i` on, with `n` rounds left.
  unfoldable pub shuffle : {A : Type 0} → ℕ → ℕ → ℕ → ℕ → (ℕ → A) → ℕ → A
  shuffle nr_key zero i c pool = pool
  shuffle nr_key (suc n) i c pool = shuffle nr_key n (i + 1) (c + 1) (swap pool i (rand c % nr_key))

  unfoldable pub shuffle_key_pool : Keygen → Keygen
  unfolding shuffle
  shuffle_key_pool kg = record kg {
    key_pool = shuffle kg.nr_key kg.nr_key 0 kg.rands kg.key_pool;
    rands = kg.rands + kg.nr_key;
  }

  unfoldable pub set_key_dist : Keygen → KeyDist → ℕ → ℕ → Keygen
  unfolding shuffle_key_pool
  set_key_dist kg KeyDist.uniform query_ratio hotset_ratio = record kg { key_dist = uniform }
  set_key_dist kg KeyDist.locality query_ratio hotset_ratio =
      let mixed =
        shuffle_key_pool
          (shuffle_key_pool (shuffle_key_pool (record kg { key_dist = locality }))) in
      record mixed {
        query_ratio = query_ratio;
        hotset_ratio = hotset_ratio;
        nr_hotset = hotset kg.nr_key hotset_ratio;
        nr_coldset = coldset kg.nr_key (hotset kg.nr_key hotset_ratio);
      }
  set_key_dist kg KeyDist.hotspot query_ratio hotset_ratio = record kg { key_dist = hotspot }

  -- A key of a set: `rand() % nr` from the index `first` on.
  abbrev pub draw : Keygen → ℕ → ℕ → ℕ → NextKey
  draw kg first nr c = if nr == 0 then fault else key (kg.key_pool ((first + rand c % nr) % 2 ^ 64))

  unfoldable pub get_next_key : Keygen → NextKey × Keygen
  get_next_key kg = elim kg.key_dist [
    | KeyDist.uniform ↦ (draw kg 0 kg.nr_key kg.rands, record kg { rands = kg.rands + 1 })
    | KeyDist.locality ↦ (
      if ltb (rand kg.rands % 100) kg.query_ratio
          then draw kg 0 kg.nr_hotset (kg.rands + 1)
          else draw kg kg.nr_hotset kg.nr_coldset (kg.rands + 1),
      record kg { rands = kg.rands + 2 },
    )
    | KeyDist.hotspot ↦ (null, kg)
  ]

-- `get_next_key_for_load`, with no other thread between its test and its lock.
unfoldable pub get_next_key_for_load : Keygen → NextKey × Keygen
get_next_key_for_load kg =
    if leb kg.nr_key kg.load_cnt
    then (null, kg)
    else (key (kg.key_pool kg.load_cnt), record kg { load_cnt = kg.load_cnt + 1 })
