-- ===== src/BigKv/Lookup/Laws.antt =====
-- What a call of `bigkv_index_get` of src/bigkv_index.c does to the buckets, and that its loop over
-- `get_target_retry` ends in the second round.
use mathlib.Core.Path.{subst}
use udepot_hopscotch.Base.{ℕ, ◌≢◌, inl, inr, List, ◌==◌, Bool-cases, Option-cases}
use udepot_hopscotch.Request.{BiStep}
use udepot_hopscotch.BigKv.Bucket.{Bucket, get_match_entry, get_target_entry}
use udepot_hopscotch.BigKv.Bucket.Lru.{IsLruOrder, use-IsLruOrder}
use udepot_hopscotch.BigKv.Bucket.Target.{Target, get_target_entry-Target}
use udepot_hopscotch.BigKv.Bucket.Store.{get_target_entry-clean, get_match_entry_lt}
use udepot_hopscotch.BigKv.Part.{EntryF, PartTable, get_match_entry_f, update_part_table}
use udepot_hopscotch.BigKv.Ops.{Index, BiRequest, bi_params_of, bucket_idx, part_buckets, with_args}
use udepot_hopscotch.BigKv.Ops.Laws.{AllLruOrder, IsClean, put_back}
use udepot_hopscotch.BigKv.Lookup.{
  Call, LookupEnd, fault, set_bucket, get_target_again, get_target_retry, bi_update_table,
  lookup_bucket, get_from, bigkv_index_get,
}

set_bucket-AllLruOrder :
    (bi : Index) (idx : ℕ) (b : Bucket)
    → AllLruOrder bi
    → IsLruOrder b
    → AllLruOrder (set_bucket bi idx b)
set_bucket-AllLruOrder bi idx b v new j = elim (Bool-cases (j == idx)) [
  | inl here ↦ rw here new
  | inr away ↦ rw away (v j)
]

-- The ages are orders of use, and no null pointer was read.
abbrev Sound : {S : Type 0} → Index × S × BiRequest × LookupEnd → Type 0
Sound r = AllLruOrder r.0 × (r.3 ≢ fault)

again-Sound :
    {S : Type 0} (bi : Index) (dev : S) (req : BiRequest) (e : EntryF) (calls : List Call)
    → AllLruOrder bi
    → IsClean (bi.bucket (bucket_idx req))
    → Sound (get_target_again bi dev req e calls)
unfolding get_target_again
again-Sound bi dev req e calls v tidy =
    let b = bi.bucket (bucket_idx req) in
    let (i, q, lt) = get_target_entry-clean b (req.key).hash_low (v (bucket_idx req)) tidy in
    rw (get_target_again, q)
      (
        set_bucket-AllLruOrder bi (bucket_idx req) _ v
            (use-IsLruOrder b i e.fingerprint e.kv_size e.pba lt (v (bucket_idx req))).1,
        λ x. cc,
      )

module _ {S : Type 0} (get_next_pba : S → ℕ → ℕ × S) where
  retry-Sound :
      (bi : Index) (dev : S) (req : BiRequest) (t : PartTable) (e : EntryF)
      → AllLruOrder bi
      → Sound (get_target_retry get_next_pba bi dev req t e)
  unfolding get_target_retry
  retry-Sound bi dev req t e v =
      let b = bi.bucket (bucket_idx req) in
      elim (Option-cases (get_target_entry b (req.key).hash_low)) [
        | inr (i, q) ↦
            let at =
              subst (Target b (req.key).hash_low) q
                (get_target_entry-Target b (req.key).hash_low (v (bucket_idx req))) in
            rw (get_target_retry, q)
              (
                set_bucket-AllLruOrder bi (bucket_idx req) _ v
                    (use-IsLruOrder b i e.fingerprint e.kv_size e.pba at.0 (v (bucket_idx req))).1,
                λ x. cc,
              )
        | inl q ↦ elim (Option-cases (update_part_table t (part_buckets bi req))) [
          | inl p ↦ rw (get_target_retry, q, p) (v, λ x. cc)
          | inr ((t', bs), p) ↦
              let (order, tidy) = put_back bi req t t' bs v p in
              rw (get_target_retry, q, p) (again-Sound _ _ req e _ order tidy)
        ]
      ]

  update-Sound :
      (bi : Index) (dev : S) (req : BiRequest)
      → AllLruOrder bi
      → Sound (bi_update_table get_next_pba bi dev req)
  unfolding bi_update_table
  update-Sound bi dev req v =
      elim (Option-cases (get_match_entry_f (req.params).temp_buf (req.key).hash_low)) [
        | inl q ↦ rw (bi_update_table, q) (v, λ x. cc)
        | inr (idx, q) ↦ rw (bi_update_table, q) (retry-Sound bi dev req _ _ v)
      ]

  bucket-Sound :
      (bi : Index) (dev : S) (req : BiRequest)
      → AllLruOrder bi
      → Sound (lookup_bucket get_next_pba bi dev req)
  unfolding lookup_bucket
  bucket-Sound bi dev req v =
      let b = bi.bucket (bucket_idx req) in
      elim (Option-cases (get_match_entry b (req.key).hash_low)) [
        | inl q ↦ rw (lookup_bucket, q) (v, λ x. cc)
        | inr (i, q) ↦
            rw (lookup_bucket, q)
              (
                set_bucket-AllLruOrder bi (bucket_idx req) _ v
                    (use-IsLruOrder b i 0 0 0 (get_match_entry_lt b (req.key).hash_low i q)
                      (v (bucket_idx req))).2,
                λ x. cc,
              )
      ]

  from-Sound :
      (step : BiStep) (bi : Index) (dev : S) (req : BiRequest)
      → AllLruOrder bi
      → Sound (get_from get_next_pba step bi dev req)
  unfolding get_from
  from-Sound BiStep.update_table bi dev req v = update-Sound bi dev req v
  from-Sound BiStep.init bi dev req v = bucket-Sound bi dev req v
  from-Sound BiStep.key_mismatch bi dev req v = bucket-Sound bi dev req v
  from-Sound BiStep.write_ptable bi dev req v = bucket-Sound bi dev req v
  from-Sound BiStep.write_kv bi dev req v = bucket-Sound bi dev req v

  -- `bigkv_index_get` keeps the ages of every bucket an order of use, and its loop ends by the second
  -- round: it never looks for a table through the pointer that the first round has set to NULL.
  pub bigkv_index_get_lem :
      (bi : Index) (dev : S) (req : BiRequest)
      → AllLruOrder bi
      → AllLruOrder (bigkv_index_get get_next_pba bi dev req).0
        × ((bigkv_index_get get_next_pba bi dev req).3 ≢ fault)
  unfolding bigkv_index_get
  bigkv_index_get_lem bi dev req v =
      from-Sound (bi_params_of req).read_step bi dev (with_args req) v
