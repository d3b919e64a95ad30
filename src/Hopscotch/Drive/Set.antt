-- ===== src/Hopscotch/Drive/Set.antt =====
-- One call of a request to set, in the run of src/hopscotch.c that `Drive` describes: what the run is
-- after a read, after a match, and where no tag matches.
pub mod Total
pub mod Overwrite
pub mod Every
use Prim.Native.Nat.{Ordering}
use mathlib.Core.Path.{subst}
use native.Mathlib.Decide.{dec_lt}
use udepot_hopscotch.Base.{
  Bool, true, false, if◌then◌else◌, ℕ, zero, suc, ◌+◌, ◌-◌, ◌/◌, ◌≤◌, ◌<◌, ◌≡◌, refl, ◌⊎◌, inl, inr,
  Option, none, some, List, arith, ◌∙◌, sym, ap, length, get_or, ◌≢◌, splice, length-splice,
  Option-cases, Bool-cases, update,
}
use udepot_hopscotch.Base.First.{IsFirst, IsFirst-skip}
use udepot_hopscotch.Pair.{KeyStruct, keycmp_k_v, copy_key_to_value}
use udepot_hopscotch.Pair.Compare.{keycmp_k_v-splice, keycmp_k_v-copy_key_to_value}
use udepot_hopscotch.Request.{ReqType, HopStep, HopParams}
use udepot_hopscotch.Hopscotch.Table.{
  Table, Entry, slot, find_matching_tag, find_free_entry, fill_entry, max_hop,
}
use udepot_hopscotch.Hopscotch.Table.Search.{HasTag, find_matching_tag-IsFirst}
use udepot_hopscotch.Hopscotch.Ops.{
  HopRequest, params_of, idx_of, tag_of, grain_unit, Io, insert_key_match, insert_key_mismatch,
  hopscotch_set, CbEnd, cb_keycmp, read_entry,
}
use udepot_hopscotch.Hopscotch.Drive.{
  deliver, SetEnd, stored, aborted, set_called_back, after_set, run_set,
}
use udepot_hopscotch.Hopscotch.Drive.Get.{
  pair_at, Matches, Delivers, is_eq, is_eq-eq, is_eq-ne, with_params,
}

module _ {S : Type 0} (get_next_pba : S → ℕ → ℕ × S) where
  -- The entry that `hopscotch_set` writes at offset `o`.
  abbrev pub new_entry : S → KeyStruct → ℕ → ℕ → Entry
  new_entry dev k len o = fill_entry o (tag_of k) (len / grain_unit) (get_next_pba dev len).0

  -- A request to set `k` with a value of `len` bytes wrote its entry at offset `o` of the table `base`,
  -- in the space that it took, and the bytes that it hands to the device have its key.
  pub record Writes (dev : S) (k : KeyStruct) (len : ℕ) (base : Table) (o : ℕ) (ht' : Table)
      (dev' : S) (pba size : ℕ) (value : List ℕ) : Type 0 where
    pub table : ht' ≡ update base (slot (idx_of k) o) (new_entry dev k len o)
    pub allocated : dev' ≡ (get_next_pba dev len).1
    pub at : pba ≡ (new_entry dev k len o).pba
    pub grains : size ≡ (new_entry dev k len o).kv_size
    pub has_key : keycmp_k_v k value ≡ Ordering.eq

  -- How a request ends, started at offset `lo` on the table `ht`.
  abbrev pub SetsFirst : (ℕ → ℕ → List ℕ) → Table → S → HopRequest → ℕ → SetEnd S → Type 0
  SetsFirst fetch ht dev req lo (stored ht' dev' pba size value) =
      ((o : ℕ) × IsFirst (Matches fetch ht req.key) lo max_hop (some o)
        × Writes dev req.key req.value.len ht o ht' dev' pba size value)
      ⊎ (IsFirst (Matches fetch ht req.key) lo max_hop none
          × ((free : ℕ) × (base : Table) × (find_free_entry ht (idx_of req.key) ≡ some (free, base))
              × Writes dev req.key req.value.len base free ht' dev' pba size value))
  SetsFirst fetch ht dev req lo aborted =
      IsFirst (Matches fetch ht req.key) lo max_hop none
      × (find_free_entry ht (idx_of req.key) ≡ none)
  SetsFirst fetch ht dev req lo SetEnd.unfinished = ⊥

-- The offset from which a request goes on looking.
abbrev pub insert_start : HopRequest → ℕ
insert_start req = elim (params_of req).insert_step [
  | HopStep.key_mismatch ↦ (params_of req).offset + 1
  | _ ↦ 0
]

-- The request after a read at offset `o`, with the step that `cb_keycmp` leaves.
abbrev pub after : (ℕ → ℕ → List ℕ) → Table → HopRequest → ℕ → HopStep → HopRequest
after fetch ht req o step = record req {
  value = record (req.value) { value = splice req.value.value 0 (pair_at fetch ht req.key o) };
  params = some (record (params_of req) { offset = o; insert_step = step });
}

cb_keycmp-set :
    (req : HopRequest)
    → req.type ≡ ReqType.set
    → cb_keycmp req ≡ (
        if is_eq (keycmp_k_v req.key req.value.value)
        then (
          record req { params = some (record (params_of req) { insert_step = HopStep.key_match }) },
          CbEnd.retried,
        )
        else (
          record req {
            params = some (record (params_of req) { insert_step = HopStep.key_mismatch });
          },
          CbEnd.retried,
        ))
unfolding cb_keycmp is_eq
cb_keycmp-set req type = ground arith

module _ {S : Type 0} (get_next_pba : S → ℕ → ℕ × S) (ht : Table) (dev : S) (req : HopRequest) where
  set-mismatch :
      (params_of req).insert_step ≢ HopStep.key_match
      → hopscotch_set get_next_pba ht dev req
        ≡ insert_key_mismatch get_next_pba ht dev (with_params req) (insert_start req)
  unfolding hopscotch_set
  set-mismatch ne = ground arith

  set-match :
      (params_of req).insert_step ≡ HopStep.key_match
      → hopscotch_set get_next_pba ht dev req
        ≡ insert_key_match get_next_pba ht dev (with_params req) (params_of req).offset
  unfolding hopscotch_set
  set-match e = ground arith

  mismatch-read :
      (lo o : ℕ)
      → find_matching_tag ht (idx_of req.key) lo (tag_of req.key) ≡ some o
      → insert_key_mismatch get_next_pba ht dev req lo
        ≡ (ht, dev, (read_entry ht req o).0, (read_entry ht req o).1)
  unfolding insert_key_mismatch
  mismatch-read lo o e = rw (insert_key_mismatch, e)

  mismatch-place :
      (lo free : ℕ) (base : Table)
      → find_matching_tag ht (idx_of req.key) lo (tag_of req.key) ≡ none
      → find_free_entry ht (idx_of req.key) ≡ some (free, base)
      → insert_key_mismatch get_next_pba ht dev req lo
        ≡ insert_key_match get_next_pba base dev req free
  unfolding insert_key_mismatch
  mismatch-place lo free base e e' = rw (insert_key_mismatch, e, e')

  mismatch-abort :
      (lo : ℕ)
      → find_matching_tag ht (idx_of req.key) lo (tag_of req.key) ≡ none
      → find_free_entry ht (idx_of req.key) ≡ none
      → insert_key_mismatch get_next_pba ht dev req lo ≡ (ht, dev, req, Io.abort)
  unfolding insert_key_mismatch
  mismatch-abort lo e e' = rw (insert_key_mismatch, e, e')

module _ {S : Type 0} (get_next_pba : S → ℕ → ℕ × S) (fetch : ℕ → ℕ → List ℕ) where
  abbrev pub value_of : HopRequest → List ℕ
  value_of req = copy_key_to_value req.key req.value.value

  -- The state after phase 3 at offset `o`.
  abbrev pub written : S → HopRequest → Table → ℕ → SetEnd S
  written dev req base o =
      stored
        (update base (slot (idx_of req.key) o) (new_entry get_next_pba dev req.key req.value.len o))
        (get_next_pba dev req.value.len).1 (new_entry get_next_pba dev req.key req.value.len o).pba
        (new_entry get_next_pba dev req.key req.value.len o).kv_size (value_of req)

  after_set-match :
      (again : Table → S → HopRequest → SetEnd S) (base : Table) (dev : S) (req : HopRequest)
      (o : ℕ)
      → after_set fetch again (insert_key_match get_next_pba base dev req o)
        ≡ written dev req base o
  unfolding after_set insert_key_match
  after_set-match again base dev req o = refl

  pub written-Writes :
      (dev : S) (req : HopRequest) (base : Table) (o : ℕ)
      → req.key.len ≤ length req.key.key
      → req.key.len + 1 ≤ length req.value.value
      → Writes get_next_pba dev req.key req.value.len base o
          (update base
            (slot (idx_of req.key) o)
            (new_entry get_next_pba dev req.key req.value.len o))
          (get_next_pba dev req.value.len).1
          (new_entry get_next_pba dev req.key req.value.len o).pba
          (new_entry get_next_pba dev req.key req.value.len o).kv_size
          (value_of req)
  written-Writes dev req base o in_array in_buffer = record {
    table = refl;
    allocated = refl;
    at = refl;
    grains = refl;
    has_key =
        (keycmp_k_v-copy_key_to_value req.key req.key req.value.value
            (record { in_array = in_array; in_buffer = in_buffer })).1
          (refl, λ i lt nul. refl);
  }

  module _ (ht : Table) (dev : S) (fuel : ℕ) (req : HopRequest) where
    abbrev pub again : Table → S → HopRequest → SetEnd S
    again = run_set fetch get_next_pba fuel

    pub run_set-match :
        (params_of req).insert_step ≡ HopStep.key_match
        → run_set fetch get_next_pba (suc fuel) ht dev req
          ≡ written dev req ht (params_of req).offset
    unfolding run_set
    run_set-match e =
        ap (after_set fetch again) (set-match get_next_pba ht dev req e)
        ∙ after_set-match again ht dev (with_params req) (params_of req).offset

    module _ (ne : (params_of req).insert_step ≢ HopStep.key_match) where
      pub run_set-place :
          (free : ℕ) (base : Table)
          → find_matching_tag ht (idx_of req.key) (insert_start req) (tag_of req.key) ≡ none
          → find_free_entry ht (idx_of req.key) ≡ some (free, base)
          → run_set fetch get_next_pba (suc fuel) ht dev req ≡ written dev req base free
      unfolding run_set
      run_set-place free base e e' =
          ap (after_set fetch again) (
            set-mismatch get_next_pba ht dev req ne
            ∙ mismatch-place get_next_pba ht dev (with_params req) (insert_start req) free base e
                e')
          ∙ after_set-match again base dev (with_params req) free

      pub run_set-abort :
          find_matching_tag ht (idx_of req.key) (insert_start req) (tag_of req.key) ≡ none
          → find_free_entry ht (idx_of req.key) ≡ none
          → run_set fetch get_next_pba (suc fuel) ht dev req ≡ aborted
      unfolding run_set after_set
      run_set-abort e e' = ap (after_set fetch again) (
          set-mismatch get_next_pba ht dev req ne
          ∙ mismatch-abort get_next_pba ht dev (with_params req) (insert_start req) e e')

      pub run_set-read :
          (o : ℕ)
          → req.type ≡ ReqType.set
          → find_matching_tag ht (idx_of req.key) (insert_start req) (tag_of req.key) ≡ some o
          → run_set fetch get_next_pba (suc fuel) ht dev req ≡ (
              if is_eq (keycmp_k_v req.key (splice req.value.value 0 (pair_at fetch ht req.key o)))
              then again ht dev (after fetch ht req o HopStep.key_match)
              else again ht dev (after fetch ht req o HopStep.key_mismatch))
      unfolding run_set after_set
      run_set-read o type e =
          ap (after_set fetch again) (
            set-mismatch get_next_pba ht dev req ne
            ∙ mismatch-read get_next_pba ht dev (with_params req) (insert_start req) o e)
          ∙ ap (set_called_back (again ht dev)) (
              cb_keycmp-set
                (deliver (read_entry ht (with_params req) o).0 (pair_at fetch ht req.key o)) type)
          ∙ set_called_back-if
              (is_eq (keycmp_k_v req.key (splice req.value.value 0 (pair_at fetch ht req.key o)))) _
              _
        where
          set_called_back-if :
              (b : Bool) (x y : HopRequest)
              → set_called_back
                  (again ht dev)
                  (if b then (x, CbEnd.retried) else (y, CbEnd.retried))
                ≡ (if b then again ht dev x else again ht dev y)
          set_called_back-if true x y = refl
          set_called_back-if false x y = refl
