-- ===== src/Client/Load.antt =====
-- What `load_kvpairs` of src/client.cc sends.
use udepot_hopscotch.Base.{
  ℕ, zero, suc, ◌+◌, ◌-◌, ◌≤◌, ◌<◌, ◌≡◌, refl, ◌∙◌, sym, ap, true, false, Option, none, some, List,
  [], ◌∷◌, ◌++◌, arith, length, ltb, leb,
}
use udepot_hopscotch.Handler.{NetReq}
use udepot_hopscotch.Keygen.{Keygen, NextKey, key, null, get_next_key_for_load}
use udepot_hopscotch.Client.{load_request, next_seq, load_bulk, load_kvpairs}

-- Requests for `n` keys of a pool from the index `i` on, numbered after `seq_num`, and the last number.
abbrev pub load_requests : (ℕ → List ℕ) → ℕ → ℕ → ℕ → List NetReq
load_requests pool i zero seq_num = []
load_requests pool i (suc n) seq_num =
    load_request (pool i) (next_seq seq_num) ∷ load_requests pool (i + 1) n (next_seq seq_num)

abbrev pub seq_after : ℕ → ℕ → ℕ
seq_after zero seq_num = seq_num
seq_after (suc n) seq_num = seq_after n (next_seq seq_num)

abbrev pub smaller : ℕ → ℕ → ℕ
smaller zero m = 0
smaller (suc n) zero = 0
smaller (suc n) (suc m) = suc (smaller n m)

pub smaller_le : (n m : ℕ) → (smaller n m ≤ n) × (smaller n m ≤ m)
smaller_le zero m = (omega arith, omega arith)
smaller_le (suc n) zero = (omega arith, omega arith)
smaller_le (suc n) (suc m) = let (a, b) = smaller_le n m in (omega arith, omega arith)

smaller_pos : (n m : ℕ) → 0 < smaller (suc n) (suc m)
smaller_pos n m = omega arith

-- What the loop does with the next key.
abbrev put_first : NetReq → List NetReq × Keygen × ℕ → List NetReq × Keygen × ℕ
put_first nr r = (nr ∷ r.0, r.1, r.2)

abbrev put : ℕ → ℕ → NextKey × Keygen → List NetReq × Keygen × ℕ
put n seq_num r = elim r.0 [
  | NextKey.key k ↦
      put_first (load_request k (next_seq seq_num)) (load_bulk n r.1 (next_seq seq_num))
  | NextKey.null ↦ ([], r.1, seq_num)
  | NextKey.fault ↦ ([], r.1, seq_num)
]

pub load_bulk_lem :
    (n left : ℕ) (kg : Keygen) (seq_num : ℕ)
    → kg.load_cnt + left ≡ kg.nr_key
    → load_bulk n kg seq_num ≡ (
      load_requests kg.key_pool kg.load_cnt (smaller n left) seq_num,
      record kg { load_cnt = kg.load_cnt + smaller n left },
      seq_after (smaller n left) seq_num,
    )
unfolding load_bulk get_next_key_for_load
load_bulk_lem zero left kg seq_num e =
    let same : kg.load_cnt ≡ kg.load_cnt + 0 = omega arith in
    λ i. ([], record kg { load_cnt = same i }, seq_num)
load_bulk_lem (suc n) zero kg seq_num e =
    let same : kg.load_cnt ≡ kg.load_cnt + 0 = omega arith in
    let full : leb kg.nr_key kg.load_cnt ≡ true = ground arith in
    let no_key : get_next_key_for_load kg ≡ (null, kg) = rw (get_next_key_for_load, full) refl in
    ap (put n seq_num) no_key ∙ (λ i. ([], record kg { load_cnt = same i }, seq_num))
load_bulk_lem (suc n) (suc left) kg seq_num e =
    let more : leb kg.nr_key kg.load_cnt ≡ false = ground arith in
    let next : Keygen = record kg { load_cnt = kg.load_cnt + 1 } in
    let a_key : get_next_key_for_load kg ≡ (key (kg.key_pool kg.load_cnt), next) =
      rw (get_next_key_for_load, more) refl in
    let same : kg.load_cnt + 1 + smaller n left ≡ kg.load_cnt + suc (smaller n left) =
      omega arith in
    ap (put n seq_num) a_key
    ∙ ap (put_first (load_request (kg.key_pool kg.load_cnt) (next_seq seq_num)))
        (load_bulk_lem n left next (next_seq seq_num) (omega arith))
    ∙ (λ i. (
      load_requests kg.key_pool kg.load_cnt (suc (smaller n left)) seq_num,
      record kg { load_cnt = same i },
      seq_after (smaller n left) (next_seq seq_num),
    ))

load_requests-append :
    (pool : ℕ → List ℕ) (i m n seq_num : ℕ)
    → load_requests pool i m seq_num ++ load_requests pool (i + m) n (seq_after m seq_num)
      ≡ load_requests pool i (m + n) seq_num
load_requests-append pool i zero n seq_num =
    let start : i + 0 ≡ i = omega arith in
    let count : 0 + n ≡ n = omega arith in
    ap (λ k. load_requests pool k n seq_num) start
    ∙ ap (λ k. load_requests pool i k seq_num) (sym count)
load_requests-append pool i (suc m) n seq_num =
    let start : i + suc m ≡ i + 1 + m = omega arith in
    let count : suc m + n ≡ suc (m + n) = omega arith in
    let s = next_seq seq_num in
    ap (λ l. load_request (pool i) s ∷ l)
      (ap (λ k. load_requests pool (i + 1) m s ++ load_requests pool k n (seq_after m s)) start
        ∙ load_requests-append pool (i + 1) m n s)
    ∙ ap (λ k. load_requests pool i k seq_num) (sym count)

pub length-load_requests :
    (pool : ℕ → List ℕ) (i n seq_num : ℕ) → length (load_requests pool i n seq_num) ≡ n
length-load_requests pool i zero seq_num = refl
length-load_requests pool i (suc n) seq_num =
    ap suc (length-load_requests pool (i + 1) n (next_seq seq_num))

seq_after-append : (m n seq_num : ℕ) → seq_after n (seq_after m seq_num) ≡ seq_after (m + n) seq_num
seq_after-append zero n seq_num =
    let count : 0 + n ≡ n = omega arith in ap (λ k. seq_after k seq_num) (sym count)
seq_after-append (suc m) n seq_num =
    let count : suc m + n ≡ suc (m + n) = omega arith in
    seq_after-append m n (next_seq seq_num) ∙ ap (λ k. seq_after k seq_num) (sym count)

-- The requests of all bulks, and that no bulk is empty or of more than 128.
abbrev pub joined : List (List NetReq) → List NetReq
joined [] = []
joined (b ∷ bs) = b ++ joined bs

abbrev pub Bulks : List (List NetReq) → Type 0
Bulks [] = Unit {0}
Bulks (b ∷ bs) = (0 < length b) × (length b ≤ 128) × Bulks bs

-- One round of the loop.
load_round :
    (nr_key fuel i : ℕ) (kg : Keygen) (seq_num : ℕ) (first : List NetReq × Keygen × ℕ)
    (rest : List (List NetReq) × Keygen × ℕ)
    → ltb i nr_key ≡ true
    → load_bulk 128 kg seq_num ≡ first
    → load_kvpairs nr_key fuel (i + length first.0) first.1 first.2 ≡ some rest
    → load_kvpairs nr_key (suc fuel) i kg seq_num ≡ some (first.0 ∷ rest.0, rest.1, rest.2)
unfolding load_kvpairs
load_round nr_key fuel i kg seq_num first rest more e e' =
    let go_on : List NetReq × Keygen × ℕ → Option (List (List NetReq) × Keygen × ℕ) = λ r.
      elim (load_kvpairs nr_key fuel (i + length r.0) r.1 r.2) [
        | none ↦ none
        | some x ↦ some (r.0 ∷ x.0, x.1, x.2)
      ] in
    rw (load_kvpairs, more) (ap go_on e ∙ rw e' refl)

-- With a generator that has given out the first `i` of its `nr_key` keys, the loop of `load_kvpairs` ends
-- and sends a request to set each of the others, once, in the order of the pool and numbered in a row, in
-- bulks of 1 to 128; and then all keys are given out. As much fuel as keys is enough.
pub load_kvpairs_lem :
    (fuel left i : ℕ) (kg : Keygen) (seq_num : ℕ)
    → i + left ≡ kg.nr_key
    → kg.load_cnt ≡ i
    → left ≤ fuel
    → (bulks : List (List NetReq)) × (load_kvpairs kg.nr_key fuel i kg seq_num
        ≡ some (bulks, record kg { load_cnt = kg.nr_key }, seq_after left seq_num))
      × (joined bulks ≡ load_requests kg.key_pool i left seq_num)
      × Bulks bulks
unfolding load_kvpairs
load_kvpairs_lem zero zero i kg seq_num all at enough =
    let over : ltb i kg.nr_key ≡ false = ground arith in
    let same : kg.load_cnt ≡ kg.nr_key = omega (arith, at, all) in
    (
      [],
      rw (load_kvpairs, over) (λ j. some ([], record kg { load_cnt = same j }, seq_num)),
      refl,
      tt,
    )
load_kvpairs_lem zero (suc left) i kg seq_num all at enough = absurd (omega arith)
load_kvpairs_lem (suc fuel) zero i kg seq_num all at enough =
    let over : ltb i kg.nr_key ≡ false = ground arith in
    let same : kg.load_cnt ≡ kg.nr_key = omega (arith, at, all) in
    (
      [],
      rw (load_kvpairs, over) (λ j. some ([], record kg { load_cnt = same j }, seq_num)),
      refl,
      tt,
    )
load_kvpairs_lem (suc fuel) (suc left) i kg seq_num all at enough =
    let more : ltb i kg.nr_key ≡ true = ground arith in
    let m = smaller 128 (suc left) in
    let (few, within) = smaller_le 128 (suc left) in
    let first = load_bulk_lem 128 (suc left) kg seq_num (omega (arith, at, all)) in
    let after : Keygen = record kg { load_cnt = kg.load_cnt + m } in
    let size = length-load_requests kg.key_pool kg.load_cnt m seq_num in
    let (bulks, e, sent, small) =
      load_kvpairs_lem fuel (suc left - m)
        (i + length (load_requests kg.key_pool kg.load_cnt m seq_num)) after (seq_after m seq_num)
        (omega (arith, size, all, within)) (omega (arith, size, at))
        (omega (arith, enough, within)) in
    let bulk = load_requests kg.key_pool kg.load_cnt m seq_num in
    let count : m + (suc left - m) ≡ suc left = omega (arith, within) in
    let last = seq_after-append m (suc left - m) seq_num ∙ ap (λ k. seq_after k seq_num) count in
    (
      bulk ∷ bulks,
      load_round kg.nr_key fuel i kg seq_num _ _ more first e
          ∙ ap (λ n. some (bulk ∷ bulks, record kg { load_cnt = kg.nr_key }, n)) last,
      ap (λ l. bulk ++ l) sent
          ∙ (λ j.
              load_requests kg.key_pool (at j) m seq_num
              ++ load_requests kg.key_pool (i + size j) (suc left - m) (seq_after m seq_num))
          ∙ load_requests-append kg.key_pool i m (suc left - m) seq_num
          ∙ ap (λ k. load_requests kg.key_pool i k seq_num) count,
      (omega (arith, size, smaller_pos 127 left), omega (arith, size, few), small),
    )
