-- ===== src/Hopscotch/Drive/Get.antt =====
-- A request for a key ends, at the first entry of the hop that has the tag and whose pair has the key.
use Prim.Native.Nat.{Ordering}
use mathlib.Core.Path.{subst}
use native.Mathlib.Decide.{dec_lt}
use udepot_hopscotch.Base.{
  Bool, true, false, if◌then◌else◌, ℕ, zero, suc, ◌+◌, ◌-◌, ◌≤◌, ◌<◌, ◌≡◌, refl, inl, inr, none,
  some, List, arith, ◌∙◌, sym, ap, length, get_or, get_or-splice, ◌≢◌, splice, length-splice,
  Option-cases, Bool-cases,
}
use udepot_hopscotch.Base.First.{IsFirst, IsFirst-skip}
use udepot_hopscotch.Pair.{KeyStruct, keycmp_k_v}
use udepot_hopscotch.Pair.Compare.{keycmp_k_v-splice}
use udepot_hopscotch.Request.{ReqType, HopStep}
use udepot_hopscotch.Hopscotch.Table.{Table, slot, find_matching_tag, max_hop}
use udepot_hopscotch.Hopscotch.Table.Search.{HasTag, find_matching_tag-IsFirst}
use udepot_hopscotch.Hopscotch.Ops.{
  HopRequest, params_of, idx_of, tag_of, lookup_key_mismatch, hopscotch_get, CbEnd, cb_keycmp,
  read_entry,
}
use udepot_hopscotch.Hopscotch.Drive.{
  deliver, GetEnd, found, missing, get_called_back, after_get, run_get,
}

module _ (fetch : ℕ → ℕ → List ℕ) (ht : Table) where
  -- What the device delivers for the entry at an offset from the key's index.
  abbrev pub pair_at : KeyStruct → ℕ → List ℕ
  pair_at k o = fetch (ht (slot (idx_of k) o)).pba (ht (slot (idx_of k) o)).kv_size

  -- The entry at an offset has the tag of the key, and its pair has the key.
  abbrev pub Matches : KeyStruct → ℕ → Type 0
  Matches k o = HasTag ht (idx_of k) (tag_of k) o × (keycmp_k_v k (pair_at k o) ≡ Ordering.eq)

  -- Every pair of the hop that is read for the tag of the key holds a key as long, and fits the buffer
  -- of the request.
  abbrev pub Delivers : HopRequest → Type 0
  Delivers req =
      (o : ℕ)
      → o < max_hop
      → HasTag ht (idx_of req.key) (tag_of req.key) o
      → (req.key.len < length (pair_at req.key o))
        × (length (pair_at req.key o) ≤ length req.value.value)

-- The offset from which a request goes on looking.
abbrev pub lookup_start : HopRequest → ℕ
lookup_start req = elim (params_of req).lookup_step [
  | HopStep.key_mismatch ↦ (params_of req).offset + 1
  | _ ↦ 0
]

abbrev pub with_params : HopRequest → HopRequest
with_params req = record req { params = some (params_of req) }

hopscotch_get_lem :
    (ht : Table) (req : HopRequest)
    → hopscotch_get ht req ≡ lookup_key_mismatch ht (with_params req) (lookup_start req)
unfolding hopscotch_get
hopscotch_get_lem ht req = ground arith

-- How a request ends, started at offset `lo`.
abbrev pub GetsFirst : (ℕ → ℕ → List ℕ) → Table → KeyStruct → ℕ → GetEnd → Type 0
GetsFirst fetch ht k lo (found r) =
    IsFirst (Matches fetch ht k) lo max_hop (some (params_of r).offset)
    × ((i : ℕ)
        → i < length (pair_at fetch ht k (params_of r).offset)
        → get_or r.value.value i 0 ≡ get_or (pair_at fetch ht k (params_of r).offset) i 0)
GetsFirst fetch ht k lo (missing r) = IsFirst (Matches fetch ht k) lo max_hop none
GetsFirst fetch ht k lo GetEnd.unfinished = ⊥

-- The request after a read at offset `o`, with the step that `cb_keycmp` leaves.
abbrev after : (ℕ → ℕ → List ℕ) → Table → HopRequest → ℕ → HopStep → HopRequest
after fetch ht req o step = record req {
  value = record (req.value) { value = splice req.value.value 0 (pair_at fetch ht req.key o) };
  params = some (record (params_of req) { offset = o; lookup_step = step });
}

unfoldable pub is_eq : Ordering → Bool
is_eq Ordering.eq = true
is_eq _ = false

-- `cb_keycmp` for a request to get.
cb_keycmp-get :
    (req : HopRequest)
    → req.type ≡ ReqType.get
    → cb_keycmp req ≡ (
        if is_eq (keycmp_k_v req.key req.value.value)
        then (
          record req { params = some (record (params_of req) { lookup_step = HopStep.key_match }) },
          CbEnd.ended,
        )
        else (
          record req {
            params = some (record (params_of req) { lookup_step = HopStep.key_mismatch });
          },
          CbEnd.retried,
        ))
unfolding cb_keycmp is_eq
cb_keycmp-get req get = ground arith

pub is_eq-ne : (c : Ordering) → is_eq c ≡ false → c ≢ Ordering.eq
unfolding is_eq
is_eq-ne Ordering.eq h = cc
is_eq-ne Ordering.lt h = λ e. cc
is_eq-ne Ordering.gt h = λ e. cc

pub is_eq-eq : (c : Ordering) → is_eq c ≡ true → c ≡ Ordering.eq
unfolding is_eq
is_eq-eq Ordering.eq h = refl
is_eq-eq Ordering.lt h = cc
is_eq-eq Ordering.gt h = cc

lookup_key_mismatch-read :
    (ht : Table) (req : HopRequest) (lo o : ℕ)
    → find_matching_tag ht (idx_of req.key) lo (tag_of req.key) ≡ some o
    → lookup_key_mismatch ht req lo ≡ read_entry ht req o
unfolding lookup_key_mismatch
lookup_key_mismatch-read ht req lo o e = rw (lookup_key_mismatch, e)

get_called_back-if :
    (again : HopRequest → GetEnd) (b : Bool) (done next : HopRequest)
    → get_called_back again (if b then (done, CbEnd.ended) else (next, CbEnd.retried))
      ≡ (if b then found done else again next)
unfolding get_called_back
get_called_back-if again true done next = refl
get_called_back-if again false done next = refl

module _ (fetch : ℕ → ℕ → List ℕ) (ht : Table) (fuel : ℕ) (req : HopRequest)
    (get : req.type ≡ ReqType.get) where
  run_get-miss :
      find_matching_tag ht (idx_of req.key) (lookup_start req) (tag_of req.key) ≡ none
      → run_get fetch (suc fuel) ht req ≡ missing (with_params req)
  unfolding run_get lookup_key_mismatch
  run_get-miss e =
      ap (after_get fetch (run_get fetch fuel ht)) (hopscotch_get_lem ht req)
      ∙ rw (lookup_key_mismatch, e)

  run_get-read :
      (o : ℕ)
      → find_matching_tag ht (idx_of req.key) (lookup_start req) (tag_of req.key) ≡ some o
      → run_get fetch (suc fuel) ht req ≡ (
          if is_eq (keycmp_k_v req.key (splice req.value.value 0 (pair_at fetch ht req.key o)))
          then found (after fetch ht req o HopStep.key_match)
          else run_get fetch fuel ht (after fetch ht req o HopStep.key_mismatch))
  unfolding run_get lookup_key_mismatch
  run_get-read o e =
      ap (after_get fetch again) (
        hopscotch_get_lem ht req
        ∙ lookup_key_mismatch-read ht (with_params req) (lookup_start req) o e)
      ∙ ap (get_called_back again) (
          cb_keycmp-get (deliver (read_entry ht (with_params req) o).0 (pair_at fetch ht req.key o))
            get)
      ∙ get_called_back-if again
          (is_eq (keycmp_k_v req.key (splice req.value.value 0 (pair_at fetch ht req.key o)))) _ _
    where
      again : HopRequest → GetEnd
      again = run_get fetch fuel ht

-- Offsets that do not match, before the start.
GetsFirst-skip :
    (fetch : ℕ → ℕ → List ℕ) (ht : Table) (k : KeyStruct) (lo mid : ℕ) (end : GetEnd)
    → lo ≤ mid
    → ((i : ℕ) → lo ≤ i → i < mid → Matches fetch ht k i → ⊥)
    → GetsFirst fetch ht k mid end
    → GetsFirst fetch ht k lo end
GetsFirst-skip fetch ht k lo mid (found r) le miss (h, front) =
    (IsFirst-skip (Matches fetch ht k) lo mid max_hop (some (params_of r).offset) le miss h, front)
GetsFirst-skip fetch ht k lo mid (missing r) le miss h =
    IsFirst-skip (Matches fetch ht k) lo mid max_hop none le miss h
GetsFirst-skip fetch ht k lo mid GetEnd.unfinished le miss h = h

module _ (fetch : ℕ → ℕ → List ℕ) (ht : Table) where
  run_get-GetsFirst :
      (fuel : ℕ) (req : HopRequest)
      → lookup_start req ≤ max_hop
      → max_hop - lookup_start req < fuel
      → req.type ≡ ReqType.get
      → Delivers fetch ht req
      → GetsFirst fetch ht req.key (lookup_start req) (run_get fetch fuel ht req)
  run_get-GetsFirst zero req in_hop enough get ok = absurd (omega arith)
  run_get-GetsFirst (suc fuel) req in_hop enough get ok =
      elim (Option-cases (find_matching_tag ht (idx_of req.key) lo (tag_of req.key))) [
        | inl e ↦
            rw (run_get-miss fetch ht fuel req get e)
              (λ i a b p. subst (IsFirst tagged lo max_hop) e first i a b p.0)
        | inr (o, e) ↦ rw (run_get-read fetch ht fuel req get o e) (
            let f = subst (IsFirst tagged lo max_hop) e first in
            let same =
              keycmp_k_v-splice req.key req.value.value (pair_at fetch ht req.key o)
                (ok o f.1 f.2).0 (ok o f.1 f.2).1 in
            elim (Bool-cases (
              is_eq (keycmp_k_v req.key (splice req.value.value 0 (pair_at fetch ht req.key o))))) [
                | inl hit ↦ rw hit (
                  (f.0, f.1, (f.2, sym same ∙ is_eq-eq _ hit), λ i a b p. f.3 i a b p.0),
                  λ i lt.
                      get_or-splice req.value.value (pair_at fetch ht req.key o) i 0
                        (ok o f.1 f.2).1 lt,
                )
                | inr miss ↦ rw miss (
                    GetsFirst-skip fetch ht req.key lo (o + 1) (run_get fetch fuel ht (next o))
                      (omega arith)
                      (λ i a b p. elim (dec_lt i o) [
                        | yes lt ↦ f.3 i a lt p.0
                        | no ge ↦
                            let at_o : i ≡ o = omega arith in
                            is_eq-ne _ miss (
                              same
                              ∙ subst
                                  (λ j.
                                    keycmp_k_v req.key (pair_at fetch ht req.key j) ≡ Ordering.eq)
                                  at_o p.1)
                      ])
                      (run_get-GetsFirst fuel (next o) (omega (arith, f.1)) (omega arith) get
                        (λ i lt tag. ((ok i lt tag).0, rw length-splice (ok i lt tag).1))))
              ])
      ]
    where
      next : ℕ → HopRequest
      next o = after fetch ht req o HopStep.key_mismatch

      lo : ℕ
      lo = lookup_start req

      tagged : ℕ → Type 0
      tagged = HasTag ht (idx_of req.key) (tag_of req.key)

      first : IsFirst tagged lo max_hop (find_matching_tag ht (idx_of req.key) lo (tag_of req.key))
      first = find_matching_tag-IsFirst ht (idx_of req.key) lo (tag_of req.key) in_hop

-- Let every entry of the hop that has the tag of the key deliver a pair that is longer than the
-- key and no longer than the buffer of the request. Then a new request to get ends within 33
-- calls: with the first entry of the hop that has the key's tag and whose pair has the key, the
-- pair at the front of its buffer; or, exactly where no entry of the hop is such, with the return
-- code for a key that does not exist.
pub run_get_total :
    (fetch : ℕ → ℕ → List ℕ) (ht : Table) (req : HopRequest)
    → req.type ≡ ReqType.get
    → req.params ≡ none
    → Delivers fetch ht req
    → GetsFirst fetch ht req.key 0 (run_get fetch (max_hop + 1) ht req)
run_get_total fetch ht req get fresh ok =
    subst (λ lo. GetsFirst fetch ht req.key lo (run_get fetch (max_hop + 1) ht req)) start
      (run_get-GetsFirst fetch ht (max_hop + 1) req (omega (arith, start)) (omega (arith, start))
        get ok)
  where
    start : lookup_start req ≡ 0
    start = rw fresh
