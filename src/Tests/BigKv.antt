-- ===== src/Tests/BigKv.antt =====
-- Runs of src/bigkv_index.c on small buckets, and uses of its theorems there.
use udepot_hopscotch.Base.{
  ◌≡◌, ◌≢◌, refl, true, none, some, [], ◌∷◌, arith, update, ◌==◌, ◌&&◌, if◌then◌else◌,
}
use udepot_hopscotch.BigKv.Bucket.{
  Entry, Bucket, init_bucket, find_entry, get_target_entry, age, store_entry,
}
use udepot_hopscotch.BigKv.Bucket.Lru.{IsLruOrder, init_bucket-IsLruOrder, use-IsLruOrder}
use udepot_hopscotch.BigKv.Bucket.Target.{Target, get_target_entry-Target}
use udepot_hopscotch.BigKv.Part.{
  PartTable, Buckets, buckets_in_part, empty_table, scan_insert, insert_to_ptable, update_bucket,
  update_buckets, update_part_table,
}
use udepot_hopscotch.BigKv.Part.Insert.{
  Holds, Inserts, insert_to_ptable-Inserts, Holds-insert_to_ptable,
}
use udepot_hopscotch.BigKv.Part.Update.{dirty_of_bucket, dirty_of, Valid, Distinct}

-- The bucket after the pair of fingerprint 77 at address 40, and after that of 78 at 48.
abbrev one : Bucket
one = store_entry init_bucket 0 77 8 40

abbrev two : Bucket
two = store_entry one 1 78 8 48

first_target : get_target_entry init_bucket 77 ≡ some 0
unfolding get_target_entry find_entry
first_target = refl

second_target : get_target_entry one 78 ≡ some 1
unfolding get_target_entry find_entry store_entry age
second_target = refl

one_order : IsLruOrder one
one_order = (use-IsLruOrder init_bucket 0 77 8 40 (omega arith) init_bucket-IsLruOrder).0

get_target_entry-Target_example : Target one 78 (get_target_entry one 78)
get_target_entry-Target_example = get_target_entry-Target one 78 one_order

other_fp : (one 1).fingerprint ≢ 77
unfolding store_entry age
other_fp = omega arith

abbrev pair_77 : Entry
pair_77 = record { fingerprint = 77; dirty_bit = true; lru_bit = 0; kv_size = 8; pba = 40 }

-- Fingerprint 1101 has the home of 77.
abbrev pair_1101 : Entry
pair_1101 = record { fingerprint = 1101; dirty_bit = true; lru_bit = 0; kv_size = 8; pba = 48 }

abbrev held : PartTable
held = update empty_table 77 (record { fingerprint = 77; offset = 0; kv_size = 8; pba = 40 })

abbrev both : PartTable
both = update held 78 (record { fingerprint = 1101; offset = 1; kv_size = 8; pba = 48 })

inserted :
    (insert_to_ptable empty_table pair_77 ≡ some held)
    × (insert_to_ptable held pair_1101 ≡ some both)
unfolding insert_to_ptable scan_insert
inserted = (refl, refl)

insert_to_ptable-Inserts_example : Inserts held pair_1101 (insert_to_ptable held pair_1101)
insert_to_ptable-Inserts_example = insert_to_ptable-Inserts held pair_1101

held_77 : Holds held 77 8 40
held_77 = Holds-insert_to_ptable empty_table pair_77 held inserted.0

-- A partition with one dirty entry, in its first bucket.
abbrev buckets : Buckets
buckets i j = if i == 0 && j == 0 then pair_77 else init_bucket 0

abbrev result : PartTable × Buckets
unfolding update_part_table update_buckets update_bucket insert_to_ptable scan_insert
result = elim (update_part_table empty_table buckets) [ none ↦ (empty_table, buckets) | some r ↦ r ]

persisted : update_part_table empty_table buckets ≡ some (result.0, result.1)
unfolding result update_part_table update_buckets update_bucket insert_to_ptable scan_insert
persisted = refl

one_dirty : dirty_of buckets_in_part buckets 0 ≡ pair_77 ∷ []
unfolding dirty_of dirty_of_bucket
one_dirty = refl

dirty-Valid : Valid (dirty_of buckets_in_part buckets 0)
unfolding dirty_of dirty_of_bucket
dirty-Valid = (omega arith, tt)

dirty-Distinct : Distinct (dirty_of buckets_in_part buckets 0)
unfolding dirty_of dirty_of_bucket
dirty-Distinct = (tt, tt)
