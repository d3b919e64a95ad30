-- ===== src/BigKv/Part/Insert.antt =====
-- `insert_to_ptable` of src/bigkv_index.c against `get_match_entry_f`.
use mathlib.Core.Path.{subst}
use native.Mathlib.Decide.{ℕ_discrete}
use udepot_hopscotch.Base.{
  ℕ, zero, suc, ◌+◌, ◌%◌, ◌^◌, ◌≤◌, ◌<◌, ◌≡◌, ◌≢◌, refl, ◌∙◌, sym, ap, ◌⊎◌, inl, inr, true, false,
  Option, none, some, arith, ◌==◌, ◌||◌, update, Bool-cases, Option-cases, ==_iff, ==→ne,
}
use udepot_hopscotch.Base.First.{IsFirst, IsFirst-miss, IsFirst-unique}
use udepot_hopscotch.BigKv.Bucket.{Entry, pba_invalid}
use udepot_hopscotch.BigKv.Part.{
  EntryF, PartTable, part_table_entrys, max_hop, scan_match, get_match_entry_f, scan_insert,
  insert_to_ptable,
}

-- The slot that a search from `home` is at in round `r`.
abbrev pub probe : ℕ → ℕ → ℕ
probe home r = (home + r) % part_table_entrys

probe_ne : (home i r : ℕ) → i < r → r < max_hop → probe home i ≢ probe home r
probe_ne home i r lt hop e = omega arith

probe-suc : (home r : ℕ) → (probe home r + 1) % part_table_entrys ≡ probe home (r + 1)
probe-suc home r = omega arith

abbrev pub HasFp : PartTable → ℕ → ℕ → Type 0
HasFp t fp r = (t (probe fp r)).fingerprint ≡ fp

-- An insertion stops there: the slot is free or has the fingerprint.
abbrev pub Stops : PartTable → ℕ → ℕ → Type 0
Stops t fp r = ((t (probe fp r)).pba ≡ pba_invalid) ⊎ HasFp t fp r

-- The outcome of a search is the slot of the first round that passes.
abbrev FirstSlot : (ℕ → Type 0) → ℕ → ℕ → ℕ → Option ℕ → Type 0
FirstSlot P home lo hi none = IsFirst P lo hi none
FirstSlot P home lo hi (some idx) = (r : ℕ) × (idx ≡ probe home r) × IsFirst P lo hi (some r)

FirstSlot-miss :
    (P : ℕ → Type 0) (home lo hi : ℕ) (o : Option ℕ)
    → (P lo → ⊥)
    → FirstSlot P home (lo + 1) hi o
    → FirstSlot P home lo hi o
FirstSlot-miss P home lo hi none miss h = IsFirst-miss P lo hi none miss h
FirstSlot-miss P home lo hi (some idx) miss (r, e, h) = (r, e, IsFirst-miss P lo hi (some r) miss h)

scan_match-FirstSlot :
    (n : ℕ) (t : PartTable) (fp i idx : ℕ)
    → idx ≡ probe fp i
    → i + n ≡ max_hop
    → FirstSlot (HasFp t fp) fp i max_hop (scan_match n t idx fp)
unfolding scan_match
scan_match-FirstSlot zero t fp i idx at e = λ j le lt p. omega arith
scan_match-FirstSlot (suc n) t fp i idx at e = elim (Bool-cases ((t idx).fingerprint == fp)) [
  | inl hit ↦ rw hit (
    i,
    at,
    (
      omega arith,
      omega arith,
      subst (λ k. (t k).fingerprint ≡ fp) at ((==_iff _ _).0 hit),
      λ j le lt p. omega arith,
    ),
  )
  | inr miss ↦ rw miss (
      FirstSlot-miss (HasFp t fp) fp i max_hop _
        (λ p. ==→ne _ _ miss (subst (λ k. (t k).fingerprint ≡ fp) (sym at) p))
        (scan_match-FirstSlot n t fp (i + 1) ((idx + 1) % part_table_entrys)
          (ap (λ k. (k + 1) % part_table_entrys) at ∙ probe-suc fp i) (omega arith)))
]

-- What `get_match_entry_f` finds.
pub get_match_entry_f-FirstSlot :
    (t : PartTable) (fp : ℕ) → FirstSlot (HasFp t fp) fp 0 max_hop (get_match_entry_f t fp)
unfolding get_match_entry_f
get_match_entry_f-FirstSlot t fp =
    scan_match-FirstSlot max_hop t fp 0 (fp % part_table_entrys) (omega arith) refl

-- It finds the slot of the first round with the fingerprint.
found_of_first :
    (t : PartTable) (fp r : ℕ)
    → IsFirst (HasFp t fp) 0 max_hop (some r)
    → get_match_entry_f t fp ≡ some (probe fp r)
found_of_first t fp r first = go (get_match_entry_f t fp) refl
  where
    go : (o : Option ℕ) → get_match_entry_f t fp ≡ o → o ≡ some (probe fp r)
    go none e = absurd (
        subst (FirstSlot (HasFp t fp) fp 0 max_hop) e (get_match_entry_f-FirstSlot t fp) r first.0
          first.1 first.2)
    go (some idx) e =
        let (r', at, first') =
          subst (FirstSlot (HasFp t fp) fp 0 max_hop) e (get_match_entry_f-FirstSlot t fp) in
        ap some (at ∙ ap (probe fp) (IsFirst-unique (HasFp t fp) 0 max_hop r' r first' first))

-- Where an insertion for `fp` ends: in the first round that stops it.
abbrev InsertsAt : PartTable → ℕ → ℕ → Option (ℕ × ℕ) → Type 0
InsertsAt t fp lo none = IsFirst (Stops t fp) lo max_hop none
InsertsAt t fp lo (some (idx, i)) = (idx ≡ probe fp i) × IsFirst (Stops t fp) lo max_hop (some i)

InsertsAt-miss :
    (t : PartTable) (fp lo : ℕ) (o : Option (ℕ × ℕ))
    → (Stops t fp lo → ⊥)
    → InsertsAt t fp (lo + 1) o
    → InsertsAt t fp lo o
InsertsAt-miss t fp lo none miss h = IsFirst-miss (Stops t fp) lo max_hop none miss h
InsertsAt-miss t fp lo (some (idx, i)) miss (e, h) =
    (e, IsFirst-miss (Stops t fp) lo max_hop (some i) miss h)

stops_iff :
    (e : EntryF) (fp : ℕ)
    → ((e.pba == pba_invalid || e.fingerprint == fp) ≡ true
        → (e.pba ≡ pba_invalid) ⊎ (e.fingerprint ≡ fp))
      × ((e.pba == pba_invalid || e.fingerprint == fp) ≡ false
          → (e.pba ≡ pba_invalid) ⊎ (e.fingerprint ≡ fp)
          → ⊥)
stops_iff e fp = (λ h. ground arith, λ h s. ground arith)

scan_insert-InsertsAt :
    (n : ℕ) (t : PartTable) (fp i idx : ℕ)
    → idx ≡ probe fp i
    → i + n ≡ max_hop
    → InsertsAt t fp i (scan_insert n t idx i fp)
unfolding scan_insert
scan_insert-InsertsAt zero t fp i idx at e = λ j le lt p. omega arith
scan_insert-InsertsAt (suc n) t fp i idx at e =
    elim (Bool-cases ((t idx).pba == pba_invalid || (t idx).fingerprint == fp)) [
      | inl hit ↦ rw hit (
        at,
        (
          omega arith,
          omega arith,
          subst (λ k. ((t k).pba ≡ pba_invalid) ⊎ ((t k).fingerprint ≡ fp)) at
              ((stops_iff (t idx) fp).0 hit),
          λ j le lt p. omega arith,
        ),
      )
      | inr miss ↦ rw miss (
          InsertsAt-miss t fp i _
            (λ p.
              (stops_iff (t idx) fp).1 miss
                (subst (λ k. ((t k).pba ≡ pba_invalid) ⊎ ((t k).fingerprint ≡ fp)) (sym at) p))
            (scan_insert-InsertsAt n t fp (i + 1) ((idx + 1) % part_table_entrys)
              (ap (λ k. (k + 1) % part_table_entrys) at ∙ probe-suc fp i) (omega arith)))
    ]

-- The entry that `insert_to_ptable` writes in round `r`.
abbrev pub entry_f : Entry → ℕ → EntryF
entry_f e r = record {
  fingerprint = e.fingerprint;
  offset = r % 2 ^ 8;
  kv_size = e.kv_size;
  pba = e.pba;
}

-- What `insert_to_ptable` does.
abbrev pub Inserts : PartTable → Entry → Option PartTable → Type 0
Inserts t e none = (r : ℕ) → 0 ≤ r → r < max_hop → Stops t e.fingerprint r → ⊥
Inserts t e (some t') =
    (r : ℕ) × IsFirst (Stops t e.fingerprint) 0 max_hop (some r)
    × (t' ≡ update t (probe e.fingerprint r) (entry_f e r))

-- `insert_to_ptable` writes the entry, with the number of its round, in the slot of the first round
-- that is free or has its fingerprint, and fails exactly where none of the 256 rounds is such.
pub insert_to_ptable-Inserts : (t : PartTable) (e : Entry) → Inserts t e (insert_to_ptable t e)
unfolding insert_to_ptable
insert_to_ptable-Inserts t e =
    elim (Option-cases
      (scan_insert max_hop t (e.fingerprint % part_table_entrys) 0 e.fingerprint)) [
        | inl q ↦ rw (q, Inserts) (subst (InsertsAt t e.fingerprint 0) q at)
        | inr ((idx, i), q) ↦
            let (slot_at, first) = subst (InsertsAt t e.fingerprint 0) q at in
            rw (q, Inserts) (i, first, ap (λ k. update t k (entry_f e i)) slot_at)
      ]
  where
    at :
        InsertsAt t e.fingerprint 0
          (scan_insert max_hop t (e.fingerprint % part_table_entrys) 0 e.fingerprint)
    at =
        scan_insert-InsertsAt max_hop t e.fingerprint 0 (e.fingerprint % part_table_entrys)
          (omega arith) refl

-- `get_match_entry_f` finds the fingerprint, with that size and address.
abbrev pub Holds : PartTable → ℕ → ℕ → ℕ → Type 0
Holds t fp kv_size pba =
    (idx : ℕ) × (get_match_entry_f t fp ≡ some idx)
    × ((t idx).kv_size ≡ kv_size)
    × ((t idx).pba ≡ pba)

update_self : (t : PartTable) (i : ℕ) (e : EntryF) → update t i e i ≡ e
update_self t i e = ground arith

update_ne : (t : PartTable) (i j : ℕ) (e : EntryF) → j ≢ i → update t i e j ≡ t j
update_ne t i j e h = ground arith

-- What `insert_to_ptable` inserts, `get_match_entry_f` finds, with its size and address.
pub Holds-insert_to_ptable :
    (t : PartTable) (e : Entry) (t' : PartTable)
    → insert_to_ptable t e ≡ some t'
    → Holds t' e.fingerprint e.kv_size e.pba
Holds-insert_to_ptable t e t' q =
    let (r, (a, hop, stop, before), table) = subst (Inserts t e) q (insert_to_ptable-Inserts t e) in
    let here =
      ap (λ (s : PartTable). s (probe e.fingerprint r)) table
      ∙ update_self t (probe e.fingerprint r) (entry_f e r) in
    (
      probe e.fingerprint r,
      found_of_first t' e.fingerprint r (
        omega arith,
        hop,
        ap (λ (x : EntryF). x.fingerprint) here,
        λ i b lt p. before i b lt (
            inr (
              ap (λ (x : EntryF). x.fingerprint)
                (sym (
                  ap (λ (s : PartTable). s (probe e.fingerprint i)) table
                  ∙ update_ne t _ _ _ (probe_ne e.fingerprint i r lt hop)))
              ∙ p)),
      ),
      ap (λ (x : EntryF). x.kv_size) here,
      ap (λ (x : EntryF). x.pba) here,
    )

-- What it finds for another fingerprint, at a valid address, stays.
pub Holds-insert_ne :
    (t : PartTable) (e : Entry) (t' : PartTable) (fp kv_size pba : ℕ)
    → insert_to_ptable t e ≡ some t'
    → fp ≢ e.fingerprint
    → pba ≢ pba_invalid
    → Holds t fp kv_size pba
    → Holds t' fp kv_size pba
Holds-insert_ne t e t' fp kv_size pba q ne valid (idx, found, size, addr) =
    let (r, (a, hop, stop, before), table) = subst (Inserts t e) q (insert_to_ptable-Inserts t e) in
    let (s, at, first) =
      subst (FirstSlot (HasFp t fp) fp 0 max_hop) found (get_match_entry_f-FirstSlot t fp) in
    let c = probe e.fingerprint r in
    let fp_at : (t idx).fingerprint ≡ fp = ap (λ k. (t k).fingerprint) at ∙ first.2 in
    let apart : idx ≢ c = λ k. elim stop [
      | inl free ↦ valid (sym addr ∙ ap (λ j. (t j).pba) k ∙ free)
      | inr same ↦ ne (sym fp_at ∙ ap (λ j. (t j).fingerprint) k ∙ same)
    ] in
    let kept : t' idx ≡ t idx = ap (λ (x : PartTable). x idx) table ∙ update_ne t c idx _ apart in
    (
      idx,
      found_of_first t' fp s (
        omega arith,
        first.1,
        ap (λ k. (t' k).fingerprint) (sym at) ∙ ap (λ (x : EntryF). x.fingerprint) kept ∙ fp_at,
        λ i b lt p. elim (ℕ_discrete (probe fp i) c) [
          | yes k ↦ ne (
              sym p
              ∙ ap (λ (x : EntryF). x.fingerprint)
                  (ap (λ (x : PartTable). x (probe fp i)) table
                    ∙ ap (update t c (entry_f e r)) k
                    ∙ update_self t c (entry_f e r)))
          | no k ↦ first.3 i b lt (
              ap (λ (x : EntryF). x.fingerprint)
                (sym (ap (λ (x : PartTable). x (probe fp i)) table ∙ update_ne t c _ _ k))
              ∙ p)
        ],
      )
          ∙ ap some (sym at),
      ap (λ (x : EntryF). x.kv_size) kept ∙ size,
      ap (λ (x : EntryF). x.pba) kept ∙ addr,
    )
