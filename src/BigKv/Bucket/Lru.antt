-- ===== src/BigKv/Bucket/Lru.antt =====
-- The `lru_bit`s of a bucket of src/bigkv_index.c stay an order of use, and a victim always exists.
use native.Mathlib.Decide.{ℕ_discrete}
use udepot_hopscotch.Base.{ℕ, ◌+◌, ◌≤◌, ◌<◌, ◌≡◌, ◌≢◌, arith, ltb, ◌==◌, if◌then◌else◌}
use udepot_hopscotch.BigKv.Bucket.{
  Bucket, nr_set, init_bucket, store_entry, cache_entry, touch_entry,
}

-- An order of use: ages up to 3, and no two entries of one age below 3.
pub record IsLruOrder (b : Bucket) : Type 0 where
  pub small : (i : ℕ) → i < nr_set → (b i).lru_bit ≤ 3
  pub distinct :
      (i j : ℕ)
      → i < nr_set
      → j < nr_set
      → i ≢ j
      → (b i).lru_bit < 3
      → (b i).lru_bit ≢ (b j).lru_bit

pub init_bucket-IsLruOrder : IsLruOrder init_bucket
init_bucket-IsLruOrder = record {
  small = λ i lt. omega arith;
  distinct = λ i j a b c d. omega arith;
}

-- What the three updates do to the ages: the entry at `e` gets 0, those below its age grow by one.
abbrev aged : Bucket → ℕ → ℕ → ℕ
aged b e i =
    if i == e
    then 0
    else if ltb (b i).lru_bit (b e).lru_bit
    then (b i).lru_bit + 1
    else (b i).lru_bit

aged-IsLruOrder :
    (b b' : Bucket) (e : ℕ)
    → e < nr_set
    → ((i : ℕ) → i < nr_set → (b' i).lru_bit ≡ aged b e i)
    → IsLruOrder b
    → IsLruOrder b'
aged-IsLruOrder b b' e lt h v = record {
  small = λ i li. ground (arith, h i li, v.small i li, v.small e lt);
  distinct = λ i j li lj ne lo. ground (
    arith,
    h i li,
    h j lj,
    v.small i li,
    v.small j lj,
    v.small e lt,
    v.distinct i j li lj ne,
    v.distinct i e li lt,
    v.distinct j e lj lt,
    v.distinct e i lt li,
    v.distinct e j lt lj,
  );
}

store_entry-aged :
    (b : Bucket) (e fp kv_size pba i : ℕ)
    → (b e).lru_bit ≤ 3
    → (store_entry b e fp kv_size pba i).lru_bit ≡ aged b e i
unfolding store_entry
store_entry-aged b e fp kv_size pba i h = ground arith

cache_entry-aged :
    (b : Bucket) (e fp kv_size pba i : ℕ)
    → (b e).lru_bit ≤ 3
    → (cache_entry b e fp kv_size pba i).lru_bit ≡ aged b e i
unfolding cache_entry
cache_entry-aged b e fp kv_size pba i h = ground arith

touch_entry-aged :
    (b : Bucket) (e i : ℕ) → (b e).lru_bit ≤ 3 → (touch_entry b e i).lru_bit ≡ aged b e i
unfolding touch_entry
touch_entry-aged b e i h = ground arith

-- Every way in which the index uses an entry keeps the ages of its bucket an order of use.
pub use-IsLruOrder :
    (b : Bucket) (e fp kv_size pba : ℕ)
    → e < nr_set
    → IsLruOrder b
    → IsLruOrder (store_entry b e fp kv_size pba)
      × IsLruOrder (cache_entry b e fp kv_size pba)
      × IsLruOrder (touch_entry b e)
use-IsLruOrder b e fp kv_size pba lt v = (
  aged-IsLruOrder b _ e lt (λ i li. store_entry-aged b e fp kv_size pba i (v.small e lt)) v,
  aged-IsLruOrder b _ e lt (λ i li. cache_entry-aged b e fp kv_size pba i (v.small e lt)) v,
  aged-IsLruOrder b _ e lt (λ i li. touch_entry-aged b e i (v.small e lt)) v,
)

-- A bucket always has an entry of age 3: four entries, and three ages below.
pub oldest_exists : (b : Bucket) → IsLruOrder b → (i : ℕ) × (i < nr_set) × ((b i).lru_bit ≡ 3)
oldest_exists b v = elim (ℕ_discrete (b 0).lru_bit 3) [
  | yes e ↦ (0, omega arith, e)
  | no n0 ↦ elim (ℕ_discrete (b 1).lru_bit 3) [
    | yes e ↦ (1, omega arith, e)
    | no n1 ↦ elim (ℕ_discrete (b 2).lru_bit 3) [
      | yes e ↦ (2, omega arith, e)
      | no n2 ↦ elim (ℕ_discrete (b 3).lru_bit 3) [
        | yes e ↦ (3, omega arith, e)
        | no n3 ↦ absurd (
            omega (
              arith,
              below 0 1,
              below 0 2,
              below 0 3,
              below 1 2,
              below 1 3,
              below 2 3,
              v.small 0,
              v.small 1,
              v.small 2,
              v.small 3,
            ))
      ]
    ]
  ]
]
  where
    below :
        (i j : ℕ)
        → i < nr_set
        → j < nr_set
        → i ≢ j
        → (b i).lru_bit < 3
        → (b i).lru_bit ≢ (b j).lru_bit
    below = v.distinct
