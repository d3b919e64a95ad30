-- ===== src/BigKv/Part.antt =====
-- The table that a partition keeps on the device, in src/bigkv_index.c: `get_match_entry_f`,
-- `insert_to_ptable` and `update_part_table`.
pub mod Insert
pub mod Update
use udepot_hopscotch.Base.{
  ℕ, zero, suc, ◌+◌, ◌%◌, ◌^◌, Bool, true, false, Option, none, some, ◌==◌, ◌||◌, if◌then◌else◌,
  update,
}
use udepot_hopscotch.BigKv.Bucket.{Entry, Bucket, pba_invalid}

-- `PART_TABLE_ENTRYS`, which is 16 * 1024 / 16, and `MAX_HOP`
abbrev pub part_table_entrys : ℕ
part_table_entrys = 1024

abbrev pub max_hop : ℕ
max_hop = 256

abbrev pub buckets_in_part : ℕ
buckets_in_part = 4

-- `struct hash_entry_f`
pub record EntryF : Type 0 where
  pub fingerprint : ℕ
  pub offset : ℕ
  pub kv_size : ℕ
  pub pba : ℕ

-- `struct hash_part_table`
abbrev pub PartTable : Type 0
PartTable = ℕ → EntryF

-- The table that `bigkv_index_set` starts a partition with: zeros, and each address invalid.
abbrev pub empty_table : PartTable
empty_table i = record { fingerprint = 0; offset = 0; kv_size = 0; pba = pba_invalid }

-- The loop of `get_match_entry_f`, with the rounds left.
pub scan_match : ℕ → PartTable → ℕ → ℕ → Option ℕ
scan_match zero ptable idx fp = none
scan_match (suc n) ptable idx fp =
    let rest = scan_match n ptable ((idx + 1) % part_table_entrys) fp in
    if (ptable idx).fingerprint == fp then some idx else rest

pub get_match_entry_f : PartTable → ℕ → Option ℕ
unfolding scan_match
get_match_entry_f ptable fp = scan_match max_hop ptable (fp % part_table_entrys) fp

-- The loop of `insert_to_ptable` stops at a free slot or at the fingerprint: the slot and the round.
unfoldable pub scan_insert : ℕ → PartTable → ℕ → ℕ → ℕ → Option (ℕ × ℕ)
scan_insert zero ptable idx i fp = none
scan_insert (suc n) ptable idx i fp =
    let rest = scan_insert n ptable ((idx + 1) % part_table_entrys) (i + 1) fp in
    if (ptable idx).pba == pba_invalid || (ptable idx).fingerprint == fp
    then some (idx, i)
    else rest

-- `none` is the return code -1.
unfoldable pub insert_to_ptable : PartTable → Entry → Option PartTable
unfolding scan_insert
insert_to_ptable ptable entry =
    elim (scan_insert max_hop ptable (entry.fingerprint % part_table_entrys) 0 entry.fingerprint) [
      | none ↦ none
      | some (idx, i) ↦ some (
          update ptable idx (record {
            fingerprint = entry.fingerprint;
            offset = i % 2 ^ 8;
            kv_size = entry.kv_size;
            pba = entry.pba;
          }))
    ]

-- The buckets of a partition, one behind the other: entry `j` of bucket `i`.
abbrev pub Buckets : Type 0
Buckets = ℕ → Bucket

-- The inner loop of `update_part_table` over one bucket, `n` rounds from entry `j`; `none` is `abort()`.
unfoldable pub update_bucket : ℕ → PartTable → Bucket → ℕ → Option (PartTable × Bucket)
update_bucket zero ptable bucket j = some (ptable, bucket)
update_bucket (suc n) ptable bucket j =
    let skip = update_bucket n ptable bucket (j + 1) in
    let entry = bucket j in
    elim entry.dirty_bit [
      | false ↦ skip
      | true ↦ elim (insert_to_ptable ptable entry) [
        | none ↦ none
        | some ptable' ↦
            update_bucket n ptable' (update bucket j (record entry { dirty_bit = false })) (j + 1)
      ]
    ]

-- The outer loop, `n` buckets from bucket `i`.
unfoldable pub update_buckets : ℕ → PartTable → Buckets → ℕ → Option (PartTable × Buckets)
unfolding update_bucket
update_buckets zero ptable buckets i = some (ptable, buckets)
update_buckets (suc n) ptable buckets i = elim (update_bucket 4 ptable (buckets i) 0) [
  | none ↦ none
  | some (ptable', bucket) ↦
      update_buckets n ptable' (λ k. if k == i then bucket else buckets k) (i + 1)
]

unfoldable pub update_part_table : PartTable → Buckets → Option (PartTable × Buckets)
unfolding update_buckets
update_part_table ptable buckets = update_buckets buckets_in_part ptable buckets 0
