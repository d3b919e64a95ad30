-- ===== src/BigKv/Bucket/Target.antt =====
-- Which entry of a bucket of src/bigkv_index.c is found and which is replaced.
use mathlib.Core.Path.{subst}
use udepot_hopscotch.Base.{
  ℕ, zero, suc, ◌+◌, ◌<◌, ◌≡◌, refl, ◌∙◌, ap, ◌⊎◌, inl, inr, Bool, true, false, Option, none, some,
  arith, ◌==◌, Bool-cases, Option-cases, ==_iff,
}
use udepot_hopscotch.Base.First.{IsFirst, IsFirst-miss, IsFirst-unique}
use udepot_hopscotch.BigKv.Bucket.{
  Entry, Bucket, nr_set, pba_invalid, find_entry, clean_victim, get_target_entry,
}
use udepot_hopscotch.BigKv.Bucket.Lru.{IsLruOrder, oldest_exists}

abbrev pub Passes : (Entry → Bool) → Bucket → ℕ → Type 0
Passes test b i = test (b i) ≡ true

find_entry-IsFirst :
    (test : Entry → Bool) (n : ℕ) (b : Bucket) (i hi : ℕ)
    → i + n ≡ hi
    → IsFirst (Passes test b) i hi (find_entry test n b i)
unfolding find_entry
find_entry-IsFirst test zero b i hi e = λ j le lt p. omega arith
find_entry-IsFirst test (suc n) b i hi e = elim (Bool-cases (test (b i))) [
  | inl hit ↦ rw hit (omega arith, omega arith, hit, λ j le lt p. omega arith)
  | inr miss ↦ rw miss (
      IsFirst-miss (Passes test b) i hi _ (λ hit. cc)
        (find_entry-IsFirst test n b (i + 1) hi (omega arith)))
]

-- What a search over the whole bucket finds.
pub IsFirst-of :
    (test : Entry → Bool) (b : Bucket)
    → IsFirst (Passes test b) 0 nr_set (find_entry test nr_set b 0)
IsFirst-of test b = find_entry-IsFirst test nr_set b 0 nr_set refl

-- The search finds the first entry to pass.
pub find_entry_of_first :
    (test : Entry → Bool) (b : Bucket) (i : ℕ)
    → IsFirst (Passes test b) 0 nr_set (some i)
    → find_entry test nr_set b 0 ≡ some i
find_entry_of_first test b i (a, lt, p, before) = elim (Option-cases (find_entry test nr_set b 0)) [
  | inl e ↦ absurd (subst (IsFirst (Passes test b) 0 nr_set) e (IsFirst-of test b) i a lt p)
  | inr (j, e) ↦
      e
      ∙ ap some (
          IsFirst-unique (Passes test b) 0 nr_set j i
            (subst (IsFirst (Passes test b) 0 nr_set) e (IsFirst-of test b)) (a, lt, p, before))
]

abbrev pub has_fp : ℕ → Entry → Bool
has_fp fp e = e.fingerprint == fp

abbrev pub is_free : Entry → Bool
is_free e = e.pba == pba_invalid

abbrev pub is_old : Entry → Bool
is_old e = e.lru_bit == 3

-- What `get_target_entry` gives.
abbrev pub Target : Bucket → ℕ → Option ℕ → Type 0
Target b fp (some i) =
    (i < nr_set)
    × (IsFirst (Passes (has_fp fp) b) 0 nr_set (some i)
        ⊎ (IsFirst (Passes (has_fp fp) b) 0 nr_set none
            × (IsFirst (Passes is_free b) 0 nr_set (some i)
                ⊎ (IsFirst (Passes is_free b) 0 nr_set none
                    × (IsFirst (Passes is_old b) 0 nr_set (some i) × ((b i).dirty_bit ≡ false))))))
Target b fp none =
    IsFirst (Passes (has_fp fp) b) 0 nr_set none
    × IsFirst (Passes is_free b) 0 nr_set none
    × ((i : ℕ) × IsFirst (Passes is_old b) 0 nr_set (some i) × ((b i).dirty_bit ≡ true))

-- In a bucket whose ages are an order of use, `get_target_entry` gives the first entry with the
-- fingerprint; else the first free one; else the first least recently used one, which is clean. Where
-- it gives none, there is no entry of the first two kinds, and the first least recently used one is
-- dirty.
pub get_target_entry-Target :
    (b : Bucket) (fp : ℕ) → IsLruOrder b → Target b fp (get_target_entry b fp)
unfolding get_target_entry
get_target_entry-Target b fp v = elim (Option-cases (find_entry (has_fp fp) nr_set b 0)) [
  | inr (i, e) ↦
      let s = subst (IsFirst (Passes (has_fp fp) b) 0 nr_set) e (IsFirst-of (has_fp fp) b) in
      rw (e, Target) (s.1, inl s)
  | inl e ↦
      let none_fp = subst (IsFirst (Passes (has_fp fp) b) 0 nr_set) e (IsFirst-of (has_fp fp) b) in
      elim (Option-cases (find_entry is_free nr_set b 0)) [
        | inr (i, e') ↦
            let s = subst (IsFirst (Passes is_free b) 0 nr_set) e' (IsFirst-of is_free b) in
            rw (e, e', Target) (s.1, inr (none_fp, inl s))
        | inl e' ↦
            let none_free = subst (IsFirst (Passes is_free b) 0 nr_set) e' (IsFirst-of is_free b) in
            elim (Option-cases (find_entry is_old nr_set b 0)) [
              | inl e'' ↦
                  let (i, lt, old) = oldest_exists b v in
                  absurd (
                    subst (IsFirst (Passes is_old b) 0 nr_set) e'' (IsFirst-of is_old b) i
                      (omega arith) lt ((==_iff _ _).1 old))
              | inr (i, e'') ↦
                  let s = subst (IsFirst (Passes is_old b) 0 nr_set) e'' (IsFirst-of is_old b) in
                  elim (Bool-cases (b i).dirty_bit) [
                    | inl dirty ↦
                        rw (e, e', e'', clean_victim, dirty, Target)
                          (none_fp, none_free, (i, s, dirty))
                    | inr clean ↦
                        rw (e, e', e'', clean_victim, clean, Target)
                          (s.1, inr (none_fp, inr (none_free, (s, clean))))
                  ]
            ]
      ]
]
