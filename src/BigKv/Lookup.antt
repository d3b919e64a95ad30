-- ===== src/BigKv/Lookup.antt =====
-- `bigkv_index_get` of src/bigkv_index.c with its callback `cb_keycmp`. The calls of `hlr->read` and
-- `hlr->write` that the operation makes are its result, in their order.
pub mod Laws
use Prim.Native.Nat.{Ordering}
use udepot_hopscotch.Base.{
  ℕ, ◌*◌, ◌%◌, ◌^◌, Option, none, some, List, [], ◌∷◌, ◌==◌, if◌then◌else◌, update,
}
use udepot_hopscotch.Pair.{keycmp_k_v}
use udepot_hopscotch.Request.{BiStep}
use udepot_hopscotch.BigKv.Bucket.{
  Bucket, get_match_entry, get_target_entry, cache_entry, touch_entry,
}
use udepot_hopscotch.BigKv.Part.{
  EntryF, PartTable, buckets_in_part, get_match_entry_f, update_part_table,
}
use udepot_hopscotch.BigKv.Ops.{
  Index, BiRequest, bi_params_of, bucket_idx, part_idx, part_buckets, set_part_buckets,
  part_table_size, with_args,
}

-- A read of the partition's table or of a pair, or the write of a table that is freed afterwards.
pub data Call : Type 0 where
  read_ptable : ℕ → Call
  read_kv : ℕ → ℕ → Call
  write_ptable : ℕ → PartTable → Call

-- How `bigkv_index_get` ends: after its calls, with the return code -1, in `abort()`, or with a read
-- of the table through the null pointer `ptable`.
pub data LookupEnd : Type 0 where
  called : List Call → LookupEnd
  not_existing : LookupEnd
  abort : LookupEnd
  fault : LookupEnd

abbrev pub set_bucket : Index → ℕ → Bucket → Index
set_bucket bi idx bucket = record bi { bucket = λ j. if j == idx then bucket else bi.bucket j }

-- The entry at `i` of the request's bucket takes over what the table holds.
abbrev pub cache_target : Index → BiRequest → EntryF → ℕ → Index
cache_target bi req e i =
    set_bucket bi (bucket_idx req)
      (cache_entry (bi.bucket (bucket_idx req)) i e.fingerprint e.kv_size e.pba)

-- From the label `get_target_retry` on, after `ptable` has been set to NULL.
pub get_target_again :
    {S : Type 0} → Index → S → BiRequest → EntryF → List Call → Index × S × BiRequest × LookupEnd
get_target_again bi dev req e calls =
    elim (get_target_entry (bi.bucket (bucket_idx req)) (req.key).hash_low) [
      | some i ↦ (cache_target bi req e i, dev, req, called calls)
      | none ↦ (bi, dev, req, fault)
    ]

module _ {S : Type 0} (get_next_pba : S → ℕ → ℕ × S) where
  -- From the label `get_target_retry` on, with the table that was read.
  pub get_target_retry :
      Index → S → BiRequest → PartTable → EntryF → Index × S × BiRequest × LookupEnd
  unfolding get_target_again
  get_target_retry bi dev req table e =
      elim (get_target_entry (bi.bucket (bucket_idx req)) (req.key).hash_low) [
        | some i ↦ (cache_target bi req e i, dev, req, called (read_kv e.pba e.kv_size ∷ []))
        | none ↦ elim (update_part_table table (part_buckets bi req)) [
          | none ↦ (bi, dev, req, abort)
          | some (table', buckets) ↦
              let (pba, dev') = get_next_pba dev part_table_size in
              let part = record (bi.part (part_idx req)) { pba = pba % 2 ^ 42 } in
              get_target_again
                (record {
                  bucket = set_part_buckets bi.bucket (part_idx req * buckets_in_part) buckets;
                  part = update bi.part (part_idx req) part;
                })
                dev' req e (read_kv e.pba e.kv_size ∷ write_ptable (pba % 2 ^ 42) table' ∷ [])
        ]
      ]

  -- From the label `bi_update_table` on.
  pub bi_update_table : Index → S → BiRequest → Index × S × BiRequest × LookupEnd
  bi_update_table bi dev req =
      let table = (req.params).temp_buf in
      elim (get_match_entry_f table (req.key).hash_low) [
        | none ↦ (bi, dev, req, not_existing)
        | some idx ↦ get_target_retry bi dev req table (table idx)
      ]

  -- The search in the bucket, and the read of what it finds or of the table.
  pub lookup_bucket : Index → S → BiRequest → Index × S × BiRequest × LookupEnd
  lookup_bucket bi dev req =
      let bucket = bi.bucket (bucket_idx req) in
      elim (get_match_entry bucket (req.key).hash_low) [
        | some i ↦ (
          set_bucket bi (bucket_idx req) (touch_entry bucket i),
          dev,
          req,
          called (read_kv (bucket i).pba (bucket i).kv_size ∷ []),
        )
        | none ↦ (bi, dev, req, called (read_ptable (bi.part (part_idx req)).pba ∷ []))
      ]

  get_from : BiStep → Index → S → BiRequest → Index × S × BiRequest × LookupEnd
  get_from BiStep.update_table bi dev req = bi_update_table bi dev req
  get_from _ bi dev req = lookup_bucket bi dev req

  pub bigkv_index_get : Index → S → BiRequest → Index × S × BiRequest × LookupEnd
  unfolding get_from
  bigkv_index_get bi dev req = get_from (bi_params_of req).read_step bi dev (with_args req)

-- `cb_keycmp` with the pair that was read in `req->value`: `none` is `req->end_req(req)`, else the
-- request goes to the retry queue.
pub cb_keycmp : BiRequest → Option BiRequest
cb_keycmp req = elim (keycmp_k_v req.key (req.value).value) [
  | Ordering.eq ↦ none
  | _ ↦ some (record req {
    params = record (req.params) {
      params = some (record (bi_params_of req) { read_step = BiStep.key_mismatch });
    };
  })
]
