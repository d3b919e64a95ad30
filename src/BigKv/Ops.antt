-- ===== src/BigKv/Ops.antt =====
-- `bigkv_index_set` of src/bigkv_index.c with its callbacks `cb_part_table_read` and
-- `cb_part_table_write`. The call of `hlr->read`, `hlr->write` or `retry_req_to_hlr` that ends the
-- operation is its result; `get_next_pba` of src/device.c, with its state `S`, is a parameter.
pub mod Laws
use udepot_hopscotch.Base.{
  ℕ, ◌+◌, ◌-◌, ◌*◌, ◌/◌, ◌%◌, ◌^◌, Bool, true, false, Option, none, some, List, ◌==◌, leb, ltb,
  ◌&&◌, if◌then◌else◌, update,
}
use udepot_hopscotch.Pair.{copy_key_to_value}
use udepot_hopscotch.Request.{BiStep, BiParams, make_bi_params, Request}
use udepot_hopscotch.BigKv.Bucket.{Bucket, init_bucket, pba_invalid, get_target_entry, store_entry}
use udepot_hopscotch.BigKv.Part.{
  PartTable, Buckets, empty_table, buckets_in_part, update_part_table,
}

-- `struct hash_partition`
pub record Partition : Type 0 where
  pub flying : Bool
  pub pba : ℕ

-- `struct hash_table`: the buckets and the partitions.
pub record Index : Type 0 where
  pub bucket : ℕ → Bucket
  pub part : ℕ → Partition

-- What `bigkv_index_init` makes.
abbrev pub bigkv_index_init : Index
bigkv_index_init = record {
  bucket = λ i. init_bucket;
  part = λ i. record { flying = false; pba = pba_invalid };
}

-- `req->params` and `req->temp_buf`; the buffer is read and written as a partition's table only.
pub record BiArgs : Type 0 where
  pub params : Option BiParams
  pub temp_buf : PartTable

abbrev pub BiRequest : Type 0
BiRequest = Request BiArgs

-- `if (!req->params) req->params = make_bi_params()`
abbrev pub bi_params_of : BiRequest → BiParams
bi_params_of req = elim (req.params).params [ none ↦ make_bi_params | some p ↦ p ]

abbrev pub nr_bucket : ℕ
nr_bucket = 2 ^ 22

abbrev pub part_table_size : ℕ
part_table_size = 16 * 1024

abbrev pub bucket_idx : BiRequest → ℕ
bucket_idx req = (req.key).hash_high % nr_bucket

abbrev pub part_idx : BiRequest → ℕ
part_idx req = bucket_idx req / buckets_in_part

-- `&table->bucket[part_idx*BUCKETS_IN_PART]`
abbrev pub part_buckets : Index → BiRequest → Buckets
part_buckets bi req j = bi.bucket (part_idx req * buckets_in_part + j)

-- The buckets of a partition, put back where they stand.
abbrev pub set_part_buckets : (ℕ → Bucket) → ℕ → Buckets → ℕ → Bucket
set_part_buckets bucket first bs i =
    if leb first i && ltb i (first + buckets_in_part) then bs (i - first) else bucket i

-- How `bigkv_index_set` ends: with a read or a write of the partition's table, with the write of the
-- pair, at the end of the retry queue, or in `abort()`.
pub data SetIo : Type 0 where
  read_ptable : ℕ → SetIo
  write_ptable : ℕ → PartTable → SetIo
  write_kv : ℕ → ℕ → List ℕ → SetIo
  retry : SetIo
  abort : SetIo

-- `if (!req->params) req->params = make_bi_params()` leaves its block in the request.
abbrev pub with_args : BiRequest → BiRequest
with_args req = record req { params = record (req.params) { params = some (bi_params_of req) } }

module _ {S : Type 0} (get_next_pba : S → ℕ → ℕ × S) where
  -- From the label `bi_write_ptable` on.
  unfoldable pub bi_write_ptable : Index → S → BiRequest → PartTable → Index × S × BiRequest × SetIo
  bi_write_ptable bi dev req table = elim (update_part_table table (part_buckets bi req)) [
    | none ↦ (bi, dev, req, abort)
    | some (table', buckets) ↦
        let (pba, dev') = get_next_pba dev part_table_size in
        (
          record {
            bucket = set_part_buckets bi.bucket (part_idx req * buckets_in_part) buckets;
            part = update bi.part (part_idx req) (record { flying = false; pba = pba % 2 ^ 42 });
          },
          dev',
          record req { params = record (req.params) { temp_buf = table' } },
          write_ptable (pba % 2 ^ 42) table',
        )
  ]

  -- `entry` found by `get_target_entry`: the entry is filled, and the pair written.
  unfoldable pub fill_target : Index → S → BiRequest → ℕ → Index × S × BiRequest × SetIo
  fill_target bi dev req i =
      let (pba, dev') = get_next_pba dev (req.value).len in
      let bucket =
        store_entry (bi.bucket (bucket_idx req)) i (req.key).hash_low ((req.value).len / 128) pba in
      let value = copy_key_to_value req.key (req.value).value in
      (
        record bi { bucket = λ j. if j == bucket_idx req then bucket else bi.bucket j },
        dev',
        record req { value = record { value = value; len = (req.value).len } },
        write_kv (bucket i).pba (bucket i).kv_size value,
      )

  -- From the label `bi_get_entry` on.
  unfoldable pub bi_get_entry : Index → S → BiRequest → Index × S × BiRequest × SetIo
  bi_get_entry bi dev req =
      let part = bi.part (part_idx req) in
      elim (get_target_entry (bi.bucket (bucket_idx req)) (req.key).hash_low) [
        | some i ↦ fill_target bi dev req i
        | none ↦ if part.pba == pba_invalid then bi_write_ptable bi dev req empty_table else (
          record bi { part = update bi.part (part_idx req) (record part { flying = true }) },
          dev,
          req,
          read_ptable part.pba,
        )
      ]

  unfoldable pub set_from : BiStep → Index → S → BiRequest → Index × S × BiRequest × SetIo
  set_from BiStep.write_ptable bi dev req = bi_write_ptable bi dev req (req.params).temp_buf
  set_from BiStep.write_kv bi dev req = bi_get_entry bi dev req
  set_from _ bi dev req =
      if (bi.part (part_idx req)).flying then (bi, dev, req, retry) else bi_get_entry bi dev req

  unfoldable pub bigkv_index_set : Index → S → BiRequest → Index × S × BiRequest × SetIo
  unfolding set_from
  bigkv_index_set bi dev req = set_from (bi_params_of req).write_step bi dev (with_args req)

-- The table of the partition has been read into the buffer.
pub cb_part_table_read : BiRequest → PartTable → BiRequest
cb_part_table_read req table = record req {
  params = record {
    params = some (record { read_step = BiStep.update_table; write_step = BiStep.write_ptable });
    temp_buf = table;
  };
}

-- The table of the partition has been written.
pub cb_part_table_write : BiRequest → BiRequest
cb_part_table_write req = record req {
  params = record (req.params) {
    params = some (record (bi_params_of req) { write_step = BiStep.write_kv });
  };
}
