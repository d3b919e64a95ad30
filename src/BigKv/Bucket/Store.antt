-- ===== src/BigKv/Bucket/Store.antt =====
-- What a store into a bucket of src/bigkv_index.c makes findable, and what it leaves findable.
use mathlib.Core.Path.{subst}
use native.Mathlib.Decide.{ℕ_discrete}
use udepot_hopscotch.Base.{
  ℕ, zero, suc, ◌+◌, ◌%◌, ◌^◌, ◌<◌, ◌≡◌, ◌≢◌, refl, sym, inl, inr, Bool, true, false, not, some,
  arith, ◌==◌, ◌&&◌, Option-cases, ==_iff,
}
use udepot_hopscotch.Base.First.{IsFirst}
use udepot_hopscotch.BigKv.Bucket.{
  Entry, Bucket, nr_set, pba_invalid, find_entry, get_match_entry, get_target_entry, store_entry,
}
use udepot_hopscotch.BigKv.Bucket.Lru.{IsLruOrder}
use udepot_hopscotch.BigKv.Bucket.Target.{
  Target, get_target_entry-Target, find_entry_of_first, IsFirst-of, Passes,
}

-- The test of `get_match_entry`.
abbrev pub is_match : ℕ → Entry → Bool
is_match fp e = not (e.pba == pba_invalid) && (e.fingerprint == fp)

store_at :
    (b : Bucket) (i fp kv_size pba : ℕ)
    → (store_entry b i fp kv_size pba i) ≡ record {
      fingerprint = fp;
      dirty_bit = true;
      lru_bit = 0;
      kv_size = kv_size % 2 ^ 14;
      pba = pba % 2 ^ 42;
    }
unfolding store_entry
store_at b i fp kv_size pba = ground arith

store_other :
    (b : Bucket) (i j fp kv_size pba : ℕ)
    → j ≢ i
    → ((store_entry b i fp kv_size pba j).fingerprint ≡ (b j).fingerprint)
      × ((store_entry b i fp kv_size pba j).dirty_bit ≡ (b j).dirty_bit)
      × ((store_entry b i fp kv_size pba j).kv_size ≡ (b j).kv_size)
      × ((store_entry b i fp kv_size pba j).pba ≡ (b j).pba)
unfolding store_entry
store_other b i j fp kv_size pba ne = ground arith

find_entry_ext :
    (test : Entry → Bool) (n : ℕ) (b b' : Bucket) (i : ℕ)
    → ((j : ℕ) → test (b j) ≡ test (b' j))
    → find_entry test n b i ≡ find_entry test n b' i
unfolding find_entry
find_entry_ext test zero b b' i h = refl
find_entry_ext test (suc n) b b' i h = rw (h i, find_entry_ext test n b b' (i + 1) h)

-- A bucket with no dirty entry has room for every fingerprint.
pub get_target_entry-clean :
    (b : Bucket) (fp : ℕ)
    → IsLruOrder b
    → ((i : ℕ) → i < nr_set → (b i).dirty_bit ≡ false)
    → (i : ℕ) × (get_target_entry b fp ≡ some i) × (i < nr_set)
get_target_entry-clean b fp v clean = elim (Option-cases (get_target_entry b fp)) [
  | inr (i, e) ↦ (i, e, (subst (Target b fp) e (get_target_entry-Target b fp v)).0)
  | inl e ↦
      let (no_fp, no_free, (i, first, dirty)) =
        subst (Target b fp) e (get_target_entry-Target b fp v) in
      let c : (b i).dirty_bit ≡ false = clean i first.1 in cc
]

-- No entry before the target has the fingerprint.
before-Target : (b : Bucket) (fp i j : ℕ) → Target b fp (some i) → j < i → (b j).fingerprint ≢ fp
before-Target b fp i j (lt, inl first) h e = first.3 j (omega arith) h ((==_iff _ _).1 e)
before-Target b fp i j (lt, inr (no_fp, rest)) h e =
    no_fp j (omega arith) (omega arith) ((==_iff _ _).1 e)

-- A pair stored at the target of its fingerprint is what `get_match_entry` then finds for it.
pub get_match_entry-store_entry :
    (b : Bucket) (fp i kv_size pba : ℕ)
    → IsLruOrder b
    → get_target_entry b fp ≡ some i
    → pba % 2 ^ 42 ≢ pba_invalid
    → get_match_entry (store_entry b i fp kv_size pba) fp ≡ some i
unfolding get_match_entry
get_match_entry-store_entry b fp i kv_size pba v e valid =
    find_entry_of_first (is_match fp) (store_entry b i fp kv_size pba) i (
      omega arith,
      target.0,
      ground (arith, store_at b i fp kv_size pba),
      λ j a lt p.
          ground (arith, store_other b i j fp kv_size pba, before-Target b fp i j target lt),
    )
  where
    target : Target b fp (some i)
    target = subst (Target b fp) e (get_target_entry-Target b fp v)

-- A store at `i` changes what is found for another fingerprint only where the entry replaced had it.
pub get_match_entry-store_ne :
    (b : Bucket) (fp fp' i kv_size pba : ℕ)
    → fp' ≢ fp
    → (b i).fingerprint ≢ fp'
    → get_match_entry (store_entry b i fp kv_size pba) fp' ≡ get_match_entry b fp'
unfolding get_match_entry
get_match_entry-store_ne b fp fp' i kv_size pba ne kept =
    find_entry_ext (is_match fp') nr_set (store_entry b i fp kv_size pba) b 0 λ j.
      elim (ℕ_discrete j i) [
        | yes e ↦
            subst (λ k. is_match fp' (store_entry b i fp kv_size pba k) ≡ is_match fp' (b k))
              (sym e) (ground (arith, store_at b i fp kv_size pba))
        | no other ↦ ground (arith, store_other b i j fp kv_size pba other)
      ]

pub get_match_entry_lt : (b : Bucket) (fp i : ℕ) → get_match_entry b fp ≡ some i → i < nr_set
unfolding get_match_entry
get_match_entry_lt b fp i e =
    (subst (IsFirst (Passes (is_match fp) b) 0 nr_set) e (IsFirst-of (is_match fp) b)).1
