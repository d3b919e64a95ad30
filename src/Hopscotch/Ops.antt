-- ===== src/Hopscotch/Ops.antt =====
-- `hopscotch_set`, `hopscotch_get` and the callback `cb_keycmp` of src/hopscotch.c.
-- The call of `hlr->read` or `hlr->write` that ends an operation is its result, for the device to
-- carry out; `get_next_pba` of src/device.c, with its state `S`, is the section's parameter.
pub mod Laws
use Prim.Native.Nat.{Ordering}
use udepot_hopscotch.Base.{ℕ, ◌+◌, ◌/◌, ◌%◌, ◌^◌, Option, none, some, List, update}
use udepot_hopscotch.Pair.{KeyStruct, copy_key_to_value, keycmp_k_v}
use udepot_hopscotch.Request.{ReqType, HopStep, HopParams, make_hop_params, Request}
use udepot_hopscotch.Hopscotch.Table.{Table, slot, find_matching_tag, fill_entry, find_free_entry}

abbrev pub HopRequest : Type 0
HopRequest = Request (Option HopParams)

-- `h_key & ((1 << IDX_BIT)-1)` and `(uint8_t)(h_key >> IDX_BIT)`. `DIR_BIT` is 0: there is one table.
abbrev pub idx_of : KeyStruct → ℕ
idx_of k = k.hash_low % 2 ^ 27

abbrev pub tag_of : KeyStruct → ℕ
tag_of k = k.hash_low / 2 ^ 27 % 2 ^ 8

-- `GRAIN_UNIT`, which include/config.h also names `SOB`
abbrev pub grain_unit : ℕ
grain_unit = 128

-- `if (!req->params) req->params = make_hop_params()`
abbrev pub params_of : HopRequest → HopParams
params_of req = elim req.params [ none ↦ make_hop_params | some p ↦ p ]

-- How an operation ends: a read with callback `cb_keycmp`, a write with callback `req->end_req`,
-- `abort()`, or the return code 1 of `hopscotch_get`.
pub data Io : Type 0 where
  read : ℕ → ℕ → Io
  write : ℕ → ℕ → List ℕ → Io
  abort : Io
  not_existing : Io

-- `goto exit` after a tag matched at `offset`
abbrev pub read_entry : Table → HopRequest → ℕ → HopRequest × Io
read_entry ht req offset =
    let entry = ht (slot (idx_of req.key) offset) in
    (
      record req { params = some (record (params_of req) { offset = offset }) },
      read entry.pba entry.kv_size,
    )

module _ {S : Type 0} (get_next_pba : S → ℕ → ℕ × S) where
  -- From the label `hop_insert_key_match` on: phase 3.
  unfoldable pub insert_key_match : Table → S → HopRequest → ℕ → Table × S × HopRequest × Io
  insert_key_match ht dev req offset =
      let (pba, dev') = get_next_pba dev req.value.len in
      let entry = fill_entry offset (tag_of req.key) (req.value.len / grain_unit) pba in
      let value = copy_key_to_value req.key req.value.value in
      (
        update ht (slot (idx_of req.key) offset) entry,
        dev',
        record req { value = record { value = value; len = req.value.len } },
        write entry.pba entry.kv_size value,
      )

  -- From the label `hop_insert_key_mismatch` on: phase 1, then phase 2.
  unfoldable pub insert_key_mismatch : Table → S → HopRequest → ℕ → Table × S × HopRequest × Io
  insert_key_mismatch ht dev req offset =
      elim (find_matching_tag ht (idx_of req.key) offset (tag_of req.key)) [
        | some found ↦ let (req', io) = read_entry ht req found in (ht, dev, req', io)
        | none ↦ elim (find_free_entry ht (idx_of req.key)) [
          | none ↦ (ht, dev, req, abort)
          | some (free, ht') ↦ insert_key_match ht' dev req free
        ]
      ]

  -- `req` has its block of parameters by now.
  unfoldable pub set_from : HopStep → Table → S → HopRequest → Table × S × HopRequest × Io
  set_from HopStep.init ht dev req = insert_key_mismatch ht dev req 0
  set_from HopStep.key_match ht dev req = insert_key_match ht dev req (params_of req).offset
  set_from HopStep.key_mismatch ht dev req =
      insert_key_mismatch ht dev req ((params_of req).offset + 1)

  unfoldable pub hopscotch_set : Table → S → HopRequest → Table × S × HopRequest × Io
  unfolding set_from
  hopscotch_set ht dev req =
      set_from (params_of req).insert_step ht dev (record req { params = some (params_of req) })

-- From the label `hop_lookup_key_mismatch` on.
unfoldable pub lookup_key_mismatch : Table → HopRequest → ℕ → HopRequest × Io
lookup_key_mismatch ht req offset =
    elim (find_matching_tag ht (idx_of req.key) offset (tag_of req.key)) [
      | some found ↦ read_entry ht req found
      | none ↦ (req, not_existing)
    ]

unfoldable pub get_from : HopStep → Table → HopRequest → HopRequest × Io
get_from HopStep.key_mismatch ht req = lookup_key_mismatch ht req ((params_of req).offset + 1)
get_from _ ht req = lookup_key_mismatch ht req 0

unfoldable pub hopscotch_get : Table → HopRequest → HopRequest × Io
unfolding get_from
hopscotch_get ht req =
    get_from (params_of req).lookup_step ht (record req { params = some (params_of req) })

-- How `cb_keycmp` ends: with `req->end_req(req)` or with `retry_req_to_hlr`.
pub data CbEnd : Type 0 where
  ended retried : CbEnd

-- `cb_keycmp` runs with the pair that was read in `req->value`.
unfoldable pub cb_keycmp : HopRequest → HopRequest × CbEnd
cb_keycmp req = elim req.type [
  | ReqType.get ↦ elim (keycmp_k_v req.key req.value.value) [
    | Ordering.eq ↦ (lookup_step HopStep.key_match, ended)
    | _ ↦ (lookup_step HopStep.key_mismatch, retried)
  ]
  | ReqType.set ↦ elim (keycmp_k_v req.key req.value.value) [
    | Ordering.eq ↦ (insert_step HopStep.key_match, retried)
    | _ ↦ (insert_step HopStep.key_mismatch, retried)
  ]
  | _ ↦ (req, retried)
]
  where
    lookup_step : HopStep → HopRequest
    lookup_step s = record req { params = some (record (params_of req) { lookup_step = s }) }

    insert_step : HopStep → HopRequest
    insert_step s = record req { params = some (record (params_of req) { insert_step = s }) }
