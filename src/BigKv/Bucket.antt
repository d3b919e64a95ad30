-- ===== src/BigKv/Bucket.antt =====
-- A bucket of src/bigkv_index.c: four entries, the search in it and the order of their use.
pub mod Lru
pub mod Target
pub mod Store
use udepot_hopscotch.Base.{
  ℕ, zero, suc, ◌+◌, ◌%◌, ◌^◌, ◌<◌, Bool, true, false, not, Option, none, some, ltb, ◌==◌, ◌&&◌,
  if◌then◌else◌, update,
}

abbrev pub nr_set : ℕ
nr_set = 4

abbrev pub pba_invalid : ℕ
pba_invalid = 0x3fffffffff

-- `struct hash_entry`: 64 bits, then bit fields of 5, 1, 2, 14 and 42 bits. `dirty_bit` is its test.
pub record Entry : Type 0 where
  pub fingerprint : ℕ
  pub dirty_bit : Bool
  pub lru_bit : ℕ
  pub kv_size : ℕ
  pub pba : ℕ

-- `struct hash_bucket`: the entries at 0 to 3.
abbrev pub Bucket : Type 0
Bucket = ℕ → Entry

-- A bucket of `bigkv_index_init`.
abbrev pub init_bucket : Bucket
init_bucket i = record {
  fingerprint = 0;
  dirty_bit = false;
  lru_bit = 3;
  kv_size = 0;
  pba = pba_invalid;
}

-- A loop over the entries that returns the first one to pass a test: `n` rounds from `i`.
unfoldable pub find_entry : (Entry → Bool) → ℕ → Bucket → ℕ → Option ℕ
find_entry test zero bucket i = none
find_entry test (suc n) bucket i =
    let rest = find_entry test n bucket (i + 1) in if test (bucket i) then some i else rest

-- A pointer to an entry of the bucket is its index.
unfoldable pub get_match_entry : Bucket → ℕ → Option ℕ
unfolding find_entry
get_match_entry bucket fp =
    find_entry (λ e. not (e.pba == pba_invalid) && (e.fingerprint == fp)) nr_set bucket 0

-- The third loop stops at the first entry least recently used, and gives it only if it is clean.
unfoldable pub clean_victim : Bucket → Option ℕ → Option ℕ
clean_victim bucket none = none
clean_victim bucket (some i) = if (bucket i).dirty_bit then none else some i

-- The first of three loops that finds something decides.
unfoldable pub get_target_entry : Bucket → ℕ → Option ℕ
unfolding find_entry clean_victim
get_target_entry bucket fp = elim (find_entry (λ e. e.fingerprint == fp) nr_set bucket 0) [
  | some i ↦ some i
  | none ↦ elim (find_entry (λ e. e.pba == pba_invalid) nr_set bucket 0) [
    | some i ↦ some i
    | none ↦ clean_victim bucket (find_entry (λ e. e.lru_bit == 3) nr_set bucket 0)
  ]
]

-- The loop that ages the entries used more recently than `lru_origin`, but for the one at `entry`.
unfoldable pub age : Bucket → ℕ → ℕ → Bucket
age bucket entry lru_origin i =
    if not (i == entry) && ltb (bucket i).lru_bit lru_origin
    then record (bucket i) { lru_bit = ((bucket i).lru_bit + 1) % 2 ^ 2 }
    else bucket i

-- The update of `bigkv_index_set`, in the order of the source.
unfoldable pub store_entry : Bucket → ℕ → ℕ → ℕ → ℕ → Bucket
unfolding age
store_entry bucket i fp kv_size pba =
    let lru_origin = (bucket i).lru_bit in
    age
      (update bucket i (record {
        fingerprint = fp;
        dirty_bit = true;
        lru_bit = 0;
        kv_size = kv_size % 2 ^ 14;
        pba = pba % 2 ^ 42;
      }))
      i lru_origin

-- The update of `bigkv_index_get` on an entry that was read from the partition's table.
pub cache_entry : Bucket → ℕ → ℕ → ℕ → ℕ → Bucket
unfolding age
cache_entry bucket i fp kv_size pba =
    let lru_origin = (bucket i).lru_bit in
    age
      (update bucket i (record {
        fingerprint = fp;
        dirty_bit = false;
        lru_bit = 0;
        kv_size = kv_size % 2 ^ 14;
        pba = pba % 2 ^ 42;
      }))
      i lru_origin

-- A hit of `bigkv_index_get`: the others age, then the entry becomes the most recent.
pub touch_entry : Bucket → ℕ → Bucket
unfolding age
touch_entry bucket i =
    let aged = age bucket i (bucket i).lru_bit in update aged i (record (aged i) { lru_bit = 0 })
