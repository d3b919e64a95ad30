-- ===== src/BigKv/Part/Update.antt =====
-- `update_part_table` of src/bigkv_index.c: after it no entry of the partition is dirty, and those that
-- were are found in the table on the device.
use mathlib.Core.Path.{subst}
use mathlib.Core.Option.{some-injective}
use native.Mathlib.Decide.{ℕ_discrete}
use udepot_hopscotch.Base.{
  ℕ, zero, suc, ◌+◌, ◌≤◌, ◌<◌, ◌≡◌, ◌≢◌, refl, ◌∙◌, sym, ap, inl, inr, Bool, true, false, Option,
  none, some, List, [], ◌∷◌, ◌++◌, arith, ◌==◌, if◌then◌else◌, update, Bool-cases, Option-cases,
}
use udepot_hopscotch.BigKv.Bucket.{Entry, Bucket, nr_set, pba_invalid}
use udepot_hopscotch.BigKv.Part.{
  PartTable, Buckets, buckets_in_part, insert_to_ptable, update_bucket, update_buckets,
  update_part_table,
}
use udepot_hopscotch.BigKv.Part.Insert.{Holds, Holds-insert_to_ptable, Holds-insert_ne}

abbrev pub clean : Entry → Entry
clean e = record e { dirty_bit = false }

-- Insertions in a row.
pub insert_all : PartTable → List Entry → Option PartTable
insert_all t [] = some t
insert_all t (e ∷ es) = elim (insert_to_ptable t e) [ none ↦ none | some t' ↦ insert_all t' es ]

-- The dirty entries of a bucket, `n` from entry `j`, and of the buckets, `n` from bucket `i`.
unfoldable pub dirty_of_bucket : ℕ → Bucket → ℕ → List Entry
dirty_of_bucket zero b j = []
dirty_of_bucket (suc n) b j =
    let rest = dirty_of_bucket n b (j + 1) in if (b j).dirty_bit then b j ∷ rest else rest

unfoldable pub dirty_of : ℕ → Buckets → ℕ → List Entry
dirty_of zero bs i = []
dirty_of (suc n) bs i = dirty_of_bucket nr_set (bs i) 0 ++ dirty_of n bs (i + 1)

dirty_ext :
    (n : ℕ) (b b' : Bucket) (j : ℕ)
    → ((k : ℕ) → j ≤ k → b k ≡ b' k)
    → dirty_of_bucket n b j ≡ dirty_of_bucket n b' j
unfolding dirty_of_bucket
dirty_ext zero b b' j h = refl
dirty_ext (suc n) b b' j h =
    rw (h j (omega arith), dirty_ext n b b' (j + 1) (λ k le. h k (omega arith)))

-- What the inner loop does from entry `j` on.
record Updates (n : ℕ) (t : PartTable) (b : Bucket) (j : ℕ) (t' : PartTable) (b' : Bucket)
    : Type 0 where
  table : insert_all t (dirty_of_bucket n b j) ≡ some t'
  inside : (k : ℕ) → j ≤ k → k < j + n → b' k ≡ clean (b k)
  before : (k : ℕ) → k < j → b' k ≡ b k

pair_of :
    {A B : Type 0} {t t' : A} {b b' : B}
    → ◌≡◌ {A = Option (A × B)} (some (t, b)) (some (t', b'))
    → (t ≡ t') × (b ≡ b')
pair_of e = (ap (λ r. r.0) (some-injective _ _ e), ap (λ r. r.1) (some-injective _ _ e))

update_self : (b : Bucket) (j : ℕ) (e : Entry) → update b j e j ≡ e
update_self b j e = ground arith

update_ne : (b : Bucket) (j k : ℕ) (e : Entry) → k ≢ j → update b j e k ≡ b k
update_ne b j k e h = ground arith

-- One round at entry `j`, whose entry becomes clean, and the rounds after it.
Updates-suc :
    (n : ℕ) (t t₁ : PartTable) (b b₁ : Bucket) (j : ℕ) (t' : PartTable) (b' : Bucket)
    → insert_all t (dirty_of_bucket (suc n) b j) ≡ insert_all t₁ (dirty_of_bucket n b₁ (j + 1))
    → b₁ j ≡ clean (b j)
    → ((k : ℕ) → k ≢ j → b₁ k ≡ b k)
    → Updates n t₁ b₁ (j + 1) t' b'
    → Updates (suc n) t b j t' b'
Updates-suc n t t₁ b b₁ j t' b' step here other u = record {
  table = step ∙ u.table;
  inside = λ k le lt. elim (ℕ_discrete k j) [
    | yes e ↦ subst (λ i. b' i ≡ clean (b i)) (sym e) (u.before j (omega arith) ∙ here)
    | no ne ↦ u.inside k (omega arith) (omega arith) ∙ ap clean (other k ne)
  ];
  before = λ k lt. u.before k (omega arith) ∙ other k (omega arith);
}

dirty_cons :
    (n : ℕ) (b : Bucket) (j : ℕ)
    → (b j).dirty_bit ≡ true
    → dirty_of_bucket (suc n) b j ≡ b j ∷ dirty_of_bucket n b (j + 1)
unfolding dirty_of_bucket
dirty_cons n b j d =
    ap (λ (c : Bool). if c then b j ∷ dirty_of_bucket n b (j + 1) else dirty_of_bucket n b (j + 1))
      d

insert_cons :
    (t t₁ : PartTable) (e : Entry) (es : List Entry)
    → insert_to_ptable t e ≡ some t₁
    → insert_all t (e ∷ es) ≡ insert_all t₁ es
unfolding insert_all
insert_cons t t₁ e es q =
    ap (λ (o : Option PartTable). elim o [ none ↦ none | some t' ↦ insert_all t' es ]) q

update_bucket-Updates :
    (n : ℕ) (t : PartTable) (b : Bucket) (j : ℕ) (t' : PartTable) (b' : Bucket)
    → update_bucket n t b j ≡ some (t', b')
    → Updates n t b j t' b'
unfolding update_bucket dirty_of_bucket insert_all
update_bucket-Updates zero t b j t' b' e = record {
  table = ap some (pair_of e).0;
  inside = λ k le lt. absurd (omega arith);
  before = λ k lt. ap (λ (x : Bucket). x k) (sym (pair_of e).1);
}
update_bucket-Updates (suc n) t b j t' b' e = elim (Bool-cases (b j).dirty_bit) [
  | inr d ↦
      Updates-suc n t t b b j t' b' (rw d) (sym (λ i. record (b j) { dirty_bit = sym d i }))
        (λ k ne. refl) (update_bucket-Updates n t b (j + 1) t' b' (rw (d, update_bucket) at e))
  | inl d ↦ elim (Option-cases (insert_to_ptable t (b j))) [
    | inl q ↦
        let bad : ◌≡◌ {A = Option (PartTable × Bucket)} none (some (t', b')) =
          rw (d, q, update_bucket) at e in
        cc
    | inr (t₁, q) ↦
        let b₁ = update b j (clean (b j)) in
        Updates-suc n t t₁ b b₁ j t' b'
          (ap (insert_all t) (dirty_cons n b j d)
            ∙ insert_cons t t₁ (b j) _ q
            ∙ ap (insert_all t₁)
                (dirty_ext n b b₁ (j + 1) (λ k le. sym (update_ne b j k _ (omega arith)))))
          (update_self b j _) (λ k ne. update_ne b j k _ ne)
          (update_bucket-Updates n t₁ b₁ (j + 1) t' b' (rw (d, q, update_bucket) at e))
  ]
]

insert_all-append :
    (xs ys : List Entry) (t t₁ : PartTable)
    → insert_all t xs ≡ some t₁
    → insert_all t (xs ++ ys) ≡ insert_all t₁ ys
unfolding insert_all
insert_all-append [] ys t t₁ e = ap (λ (u : PartTable). insert_all u ys) (some-injective _ _ e)
insert_all-append (x ∷ xs) ys t t₁ e = elim (Option-cases (insert_to_ptable t x)) [
  | inl q ↦ let bad : ◌≡◌ {A = Option (PartTable)} none (some t₁) = rw (q, insert_all) at e in cc
  | inr (t₂, q) ↦ rw (insert_all, q) (insert_all-append xs ys t₂ t₁ (rw (q, insert_all) at e))
]

-- What the outer loop does from bucket `i` on.
record UpdatesAll (n : ℕ) (t : PartTable) (bs : Buckets) (i : ℕ) (t' : PartTable) (bs' : Buckets)
    : Type 0 where
  table : insert_all t (dirty_of n bs i) ≡ some t'
  inside : (k j : ℕ) → i ≤ k → k < i + n → j < nr_set → bs' k j ≡ clean (bs k j)
  before : (k : ℕ) → k < i → bs' k ≡ bs k

dirty_of_ext :
    (n : ℕ) (bs bs' : Buckets) (i : ℕ)
    → ((k : ℕ) → i ≤ k → bs k ≡ bs' k)
    → dirty_of n bs i ≡ dirty_of n bs' i
unfolding dirty_of
dirty_of_ext zero bs bs' i h = refl
dirty_of_ext (suc n) bs bs' i h =
    rw (h i (omega arith), dirty_of_ext n bs bs' (i + 1) (λ k le. h k (omega arith)))

abbrev replace_bucket : Buckets → ℕ → Bucket → Buckets
replace_bucket bs i b k = if k == i then b else bs k

replace_self : (bs : Buckets) (i : ℕ) (b : Bucket) → replace_bucket bs i b i ≡ b
replace_self bs i b = ground arith

replace_ne : (bs : Buckets) (i k : ℕ) (b : Bucket) → k ≢ i → replace_bucket bs i b k ≡ bs k
replace_ne bs i k b h = ground arith

UpdatesAll-suc :
    (n : ℕ) (t t₁ : PartTable) (bs : Buckets) (b : Bucket) (i : ℕ) (t' : PartTable) (bs' : Buckets)
    → Updates nr_set t (bs i) 0 t₁ b
    → UpdatesAll n t₁ (replace_bucket bs i b) (i + 1) t' bs'
    → UpdatesAll (suc n) t bs i t' bs'
unfolding dirty_of
UpdatesAll-suc n t t₁ bs b i t' bs' u us = record {
  table =
      insert_all-append (dirty_of_bucket nr_set (bs i) 0) (dirty_of n bs (i + 1)) t t₁ u.table
      ∙ ap (insert_all t₁) (
          dirty_of_ext n bs (replace_bucket bs i b) (i + 1)
            (λ k le. sym (replace_ne bs i k b (omega arith))))
      ∙ us.table;
  inside = λ k j le lt lj. elim (ℕ_discrete k i) [
    | yes e ↦
        subst (λ m. bs' m j ≡ clean (bs m j)) (sym e)
          (ap (λ (x : Bucket). x j) (us.before i (omega arith) ∙ replace_self bs i b)
            ∙ u.inside j (omega arith) (omega arith))
    | no ne ↦
        us.inside k j (omega arith) (omega arith) lj
        ∙ ap (λ (x : Bucket). clean (x j)) (replace_ne bs i k b ne)
  ];
  before = λ k lt. us.before k (omega arith) ∙ replace_ne bs i k b (omega arith);
}

update_buckets-UpdatesAll :
    (n : ℕ) (t : PartTable) (bs : Buckets) (i : ℕ) (t' : PartTable) (bs' : Buckets)
    → update_buckets n t bs i ≡ some (t', bs')
    → UpdatesAll n t bs i t' bs'
unfolding update_buckets dirty_of insert_all
update_buckets-UpdatesAll zero t bs i t' bs' e = record {
  table = ap some (pair_of e).0;
  inside = λ k j le lt lj. absurd (omega arith);
  before = λ k lt. ap (λ (x : Buckets). x k) (sym (pair_of e).1);
}
update_buckets-UpdatesAll (suc n) t bs i t' bs' e =
    elim (Option-cases (update_bucket 4 t (bs i) 0)) [
      | inl q ↦
          let bad : ◌≡◌ {A = Option (PartTable × Buckets)} none (some (t', bs')) =
            rw (q, update_buckets) at e in
          cc
      | inr ((t₁, b), q) ↦
          UpdatesAll-suc n t t₁ bs b i t' bs' (update_bucket-Updates nr_set t (bs i) 0 t₁ b q) (
            update_buckets-UpdatesAll n t₁ (replace_bucket bs i b) (i + 1) t' bs'
              (rw (q, update_buckets) at e))
    ]

-- The addresses are valid, and no two entries have one fingerprint.
abbrev pub Valid : List Entry → Type 0
Valid [] = Unit {0}
Valid (e ∷ es) = (e.pba ≢ pba_invalid) × Valid es

abbrev pub Absent : ℕ → List Entry → Type 0
Absent fp [] = Unit {0}
Absent fp (e ∷ es) = (fp ≢ e.fingerprint) × Absent fp es

abbrev pub Distinct : List Entry → Type 0
Distinct [] = Unit {0}
Distinct (e ∷ es) = Absent e.fingerprint es × Distinct es

abbrev pub AllHeld : PartTable → List Entry → Type 0
AllHeld t [] = Unit {0}
AllHeld t (e ∷ es) = Holds t e.fingerprint e.kv_size e.pba × AllHeld t es

-- What is found for a fingerprint stays through insertions of others.
pub Holds-insert_all :
    (es : List Entry) (t t' : PartTable) (fp kv_size pba : ℕ)
    → insert_all t es ≡ some t'
    → Absent fp es
    → pba ≢ pba_invalid
    → Holds t fp kv_size pba
    → Holds t' fp kv_size pba
unfolding insert_all
Holds-insert_all [] t t' fp kv_size pba q away valid h =
    subst (λ u. Holds u fp kv_size pba) (some-injective _ _ q) h
Holds-insert_all (e ∷ es) t t' fp kv_size pba q away valid h =
    elim (Option-cases (insert_to_ptable t e)) [
      | inl p ↦ let bad : ◌≡◌ {A = Option PartTable} none (some t') = rw (p, insert_all) at q in cc
      | inr (t₁, p) ↦
          Holds-insert_all es t₁ t' fp kv_size pba (rw (p, insert_all) at q) away.1 valid
            (Holds-insert_ne t e t₁ fp kv_size pba p away.0 valid h)
    ]

AllHeld-insert_all :
    (es : List Entry) (t t' : PartTable)
    → insert_all t es ≡ some t'
    → Valid es
    → Distinct es
    → AllHeld t' es
unfolding insert_all
AllHeld-insert_all [] t t' q valid apart = tt
AllHeld-insert_all (e ∷ es) t t' q valid apart = elim (Option-cases (insert_to_ptable t e)) [
  | inl p ↦ let bad : ◌≡◌ {A = Option PartTable} none (some t') = rw (p, insert_all) at q in cc
  | inr (t₁, p) ↦ (
    Holds-insert_all es t₁ t' e.fingerprint e.kv_size e.pba (rw (p, insert_all) at q) apart.0
        valid.0 (Holds-insert_to_ptable t e t₁ p),
    AllHeld-insert_all es t₁ t' (rw (p, insert_all) at q) valid.1 apart.1,
  )
]

-- Where `update_part_table` does not abort, it makes every entry of the partition clean and changes
-- nothing else in them.
pub update_part_table-clean :
    (t : PartTable) (bs : Buckets) (t' : PartTable) (bs' : Buckets)
    → update_part_table t bs ≡ some (t', bs')
    → (i j : ℕ) → i < buckets_in_part
    → j < nr_set
    → bs' i j ≡ clean (bs i j)
unfolding update_part_table
update_part_table-clean t bs t' bs' e i j li lj =
    (update_buckets-UpdatesAll buckets_in_part t bs 0 t' bs' e).inside i j (omega arith)
      (omega arith) lj

-- Where `update_part_table` does not abort, and the dirty entries of the partition have valid
-- addresses and different fingerprints, each of them is found in the table afterwards with its size
-- and address.
pub update_part_table-AllHeld :
    (t : PartTable) (bs : Buckets) (t' : PartTable) (bs' : Buckets)
    → update_part_table t bs ≡ some (t', bs')
    → Valid (dirty_of buckets_in_part bs 0)
    → Distinct (dirty_of buckets_in_part bs 0)
    → AllHeld t' (dirty_of buckets_in_part bs 0)
unfolding update_part_table
update_part_table-AllHeld t bs t' bs' e valid apart =
    let u = update_buckets-UpdatesAll buckets_in_part t bs 0 t' bs' e in
    AllHeld-insert_all (dirty_of buckets_in_part bs 0) t t' u.table valid apart
