-- ===== src/BigKv/Ops/Laws.antt =====
-- What a call of `bigkv_index_set` of src/bigkv_index.c does to the buckets, and how it goes on after
-- the table of the partition has been written.
use mathlib.Core.Path.{subst}
use udepot_hopscotch.Base.{
  ℕ, ◌+◌, ◌-◌, ◌*◌, ◌%◌, ◌^◌, ◌<◌, ◌≡◌, refl, ◌∙◌, sym, ap, inl, inr, false, some, arith, ◌==◌, ltb,
  leb, ◌&&◌, Bool-cases, Option-cases, update, if◌then◌else◌,
}
use udepot_hopscotch.Request.{BiStep}
use udepot_hopscotch.BigKv.Bucket.{Bucket, nr_set, pba_invalid, get_target_entry}
use udepot_hopscotch.BigKv.Bucket.Lru.{IsLruOrder, use-IsLruOrder}
use udepot_hopscotch.BigKv.Bucket.Target.{Target, get_target_entry-Target}
use udepot_hopscotch.BigKv.Part.{
  PartTable, Buckets, empty_table, buckets_in_part, update_part_table,
}
use udepot_hopscotch.BigKv.Part.Update.{clean, update_part_table-clean}
use udepot_hopscotch.BigKv.Ops.{
  Index, BiRequest, bi_params_of, bucket_idx, part_idx, part_buckets, set_part_buckets, SetIo,
  with_args, bi_write_ptable, part_table_size, fill_target, bi_get_entry, set_from, bigkv_index_set,
}

-- The ages of all buckets are orders of use.
abbrev pub AllLruOrder : Index → Type 0
AllLruOrder bi = (i : ℕ) → IsLruOrder (bi.bucket i)

clean-IsLruOrder :
    (b b' : Bucket) → ((j : ℕ) → j < nr_set → b' j ≡ clean (b j)) → IsLruOrder b → IsLruOrder b'
clean-IsLruOrder b b' same v = record {
  small = λ i lt. rw (age i lt) (v.small i lt);
  distinct = λ i j li lj ne. rw (age i li, age j lj) (v.distinct i j li lj ne);
}
  where
    age : (j : ℕ) → j < nr_set → (b' j).lru_bit ≡ (b j).lru_bit
    age j lt = ap (λ e. e.lru_bit) (same j lt)

-- A bucket after the buckets of a partition were put back: one of those, or what it was.
set_part_buckets-cases :
    (P : Bucket → Type 0) (bucket : ℕ → Bucket) (first : ℕ) (bs : Buckets)
    → ((k : ℕ) → k < buckets_in_part → P (bs k))
    → ((i : ℕ) → P (bucket i))
    → (i : ℕ) → P (set_part_buckets bucket first bs i)
set_part_buckets-cases P bucket first bs new old i =
    elim (Bool-cases (leb first i && ltb i (first + buckets_in_part))) [
      | inl here ↦ rw here (new (i - first) (ground arith))
      | inr away ↦ rw away (old i)
    ]

-- The bucket of the request is one of its partition.
own_bucket :
    (bi : Index) (req : BiRequest) (bs : Buckets)
    → (k : ℕ) × (k < buckets_in_part)
      × (set_part_buckets bi.bucket (part_idx req * buckets_in_part) bs (bucket_idx req) ≡ bs k)
own_bucket bi req bs = (bucket_idx req - part_idx req * buckets_in_part, omega arith, ground arith)

-- No entry of the bucket is dirty.
abbrev pub IsClean : Bucket → Type 0
IsClean b = (i : ℕ) → i < nr_set → (b i).dirty_bit ≡ false

-- The buckets that `update_part_table` leaves, put back: the ages as they were, and the request's
-- bucket clean.
pub put_back :
    (bi : Index) (req : BiRequest) (t t' : PartTable) (bs : Buckets)
    → AllLruOrder bi
    → update_part_table t (part_buckets bi req) ≡ some (t', bs)
    → ((i : ℕ) → IsLruOrder (set_part_buckets bi.bucket (part_idx req * buckets_in_part) bs i))
      × IsClean (set_part_buckets bi.bucket (part_idx req * buckets_in_part) bs (bucket_idx req))
put_back bi req t t' bs v e =
    let cleaned = update_part_table-clean t (part_buckets bi req) t' bs e in
    let (k, lt, own) = own_bucket bi req bs in
    (
      set_part_buckets-cases IsLruOrder bi.bucket (part_idx req * buckets_in_part) bs
          (λ k lt.
            clean-IsLruOrder (part_buckets bi req k) (bs k) (λ j lj. cleaned k j lt lj)
              (v (part_idx req * buckets_in_part + k)))
          v,
      λ i li. ap (λ (b : Bucket). (b i).dirty_bit) own ∙ ap (λ e. e.dirty_bit) (cleaned k i lt li),
    )

module _ {S : Type 0} (get_next_pba : S → ℕ → ℕ × S) where
  abbrev Outcome : Type 0
  Outcome = Index × S × BiRequest × SetIo

  -- A call that ends with the write of the partition's table leaves the request's key, and its bucket
  -- clean.
  abbrev CleanAfter : BiRequest → Outcome → Type 0
  CleanAfter req (bi', dev', req', SetIo.write_ptable pba table) =
      ((req'.key) ≡ (req.key)) × IsClean (bi'.bucket (bucket_idx req))
  CleanAfter req (bi', dev', req', _) = Unit {0}

  -- The outcome of `bi_write_ptable` where nothing aborts.
  abbrev written : Index → S → BiRequest → PartTable → Buckets → Outcome
  written bi dev req t' bs =
      let (pba, dev') = get_next_pba dev part_table_size in
      (
        record {
          bucket = set_part_buckets bi.bucket (part_idx req * buckets_in_part) bs;
          part = update bi.part (part_idx req) (record { flying = false; pba = pba % 2 ^ 42 });
        },
        dev',
        record req { params = record (req.params) { temp_buf = t' } },
        SetIo.write_ptable (pba % 2 ^ 42) t',
      )

  table_written :
      (bi : Index) (dev : S) (req : BiRequest) (t t' : PartTable) (bs : Buckets)
      → update_part_table t (part_buckets bi req) ≡ some (t', bs)
      → bi_write_ptable get_next_pba bi dev req t ≡ written bi dev req t' bs
  unfolding bi_write_ptable
  table_written bi dev req t t' bs e = rw (bi_write_ptable, e)

  ptable-AllLruOrder :
      (bi : Index) (dev : S) (req : BiRequest) (t : PartTable)
      → AllLruOrder bi
      → AllLruOrder (bi_write_ptable get_next_pba bi dev req t).0
        × CleanAfter req (bi_write_ptable get_next_pba bi dev req t)
  unfolding bi_write_ptable
  ptable-AllLruOrder bi dev req t v =
      elim (Option-cases (update_part_table t (part_buckets bi req))) [
        | inl e ↦ rw (e, bi_write_ptable, CleanAfter) (v, tt)
        | inr ((t', bs), e) ↦
            let (order, tidy) = put_back bi req t t' bs v e in
            subst (λ o. AllLruOrder o.0 × CleanAfter req o)
              (sym (table_written bi dev req t t' bs e)) (order, (refl, tidy))
      ]

  fill-AllLruOrder :
      (bi : Index) (dev : S) (req : BiRequest) (i : ℕ)
      → AllLruOrder bi
      → i < nr_set
      → AllLruOrder (fill_target get_next_pba bi dev req i).0
  unfolding fill_target
  fill-AllLruOrder bi dev req i v lt j = elim (Bool-cases (j == bucket_idx req)) [
    | inl here ↦
        rw here (use-IsLruOrder (bi.bucket (bucket_idx req)) i _ _ _ lt (v (bucket_idx req))).0
    | inr away ↦ rw away (v j)
  ]

  entry-AllLruOrder :
      (bi : Index) (dev : S) (req : BiRequest)
      → AllLruOrder bi
      → AllLruOrder (bi_get_entry get_next_pba bi dev req).0
        × CleanAfter req (bi_get_entry get_next_pba bi dev req)
  unfolding bi_get_entry fill_target
  entry-AllLruOrder bi dev req v =
      elim (Option-cases (get_target_entry (bi.bucket (bucket_idx req)) (req.key).hash_low)) [
        | inr (i, e) ↦
            let at = subst (Target (bi.bucket (bucket_idx req)) (req.key).hash_low) e (
              get_target_entry-Target (bi.bucket (bucket_idx req)) (req.key).hash_low
                (v (bucket_idx req))) in
            rw (e, bi_get_entry, CleanAfter) (fill-AllLruOrder bi dev req i v at.0, tt)
        | inl e ↦ elim (Bool-cases ((bi.part (part_idx req)).pba == pba_invalid)) [
          | inl q ↦ rw (e, bi_get_entry, q) (ptable-AllLruOrder bi dev req empty_table v)
          | inr q ↦ rw (e, bi_get_entry, q, CleanAfter) (v, tt)
        ]
      ]

  waits :
      (bi : Index) (dev : S) (req : BiRequest)
      → AllLruOrder bi
      → AllLruOrder
          (if (bi.part (part_idx req)).flying
            then (bi, dev, req, SetIo.retry)
            else bi_get_entry get_next_pba bi dev req).0
        × CleanAfter req (
            if (bi.part (part_idx req)).flying
            then (bi, dev, req, SetIo.retry)
            else bi_get_entry get_next_pba bi dev req)
  waits bi dev req v = elim (Bool-cases (bi.part (part_idx req)).flying) [
    | inl q ↦ rw (q, CleanAfter) (v, tt)
    | inr q ↦ rw q (entry-AllLruOrder bi dev req v)
  ]

  set_from-AllLruOrder :
      (step : BiStep) (bi : Index) (dev : S) (req : BiRequest)
      → AllLruOrder bi
      → AllLruOrder (set_from get_next_pba step bi dev req).0
        × CleanAfter req (set_from get_next_pba step bi dev req)
  unfolding set_from
  set_from-AllLruOrder BiStep.write_ptable bi dev req v = ptable-AllLruOrder bi dev req _ v
  set_from-AllLruOrder BiStep.write_kv bi dev req v = entry-AllLruOrder bi dev req v
  set_from-AllLruOrder BiStep.init bi dev req v = waits bi dev req v
  set_from-AllLruOrder BiStep.key_mismatch bi dev req v = waits bi dev req v
  set_from-AllLruOrder BiStep.update_table bi dev req v = waits bi dev req v

  -- `bigkv_index_set` keeps the ages of every bucket an order of use, however it ends.
  pub bigkv_index_set-AllLruOrder :
      (bi : Index) (dev : S) (req : BiRequest)
      → AllLruOrder bi
      → AllLruOrder (bigkv_index_set get_next_pba bi dev req).0
  unfolding bigkv_index_set
  bigkv_index_set-AllLruOrder bi dev req v =
      (set_from-AllLruOrder (bi_params_of req).write_step bi dev (with_args req) v).0
