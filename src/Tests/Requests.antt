-- ===== src/Tests/Requests.antt =====
-- A request to src/bigkv_index.c that finds its bucket full of dirty entries.
use udepot_hopscotch.Base.{
  ℕ, ◌+◌, ◌-◌, ◌*◌, ◌≢◌, Bool, true, false, none, [], ◌∷◌, arith, ◌==◌, if◌then◌else◌,
}
use udepot_hopscotch.Request.{ReqType}
use udepot_hopscotch.BigKv.Bucket.{Bucket, init_bucket, find_entry, get_target_entry, clean_victim}
use udepot_hopscotch.BigKv.Bucket.Lru.{IsLruOrder, init_bucket-IsLruOrder}
use udepot_hopscotch.BigKv.Part.{
  PartTable, empty_table, scan_insert, insert_to_ptable, update_bucket, update_buckets,
  update_part_table,
}
use udepot_hopscotch.BigKv.Ops.{
  Index, BiRequest, SetIo, bigkv_index_init, set_from, bi_get_entry, bi_write_ptable,
  bigkv_index_set,
}
use udepot_hopscotch.BigKv.Ops.Laws.{AllLruOrder, bigkv_index_set-AllLruOrder}
use udepot_hopscotch.BigKv.Lookup.{fault, bigkv_index_get}
use udepot_hopscotch.BigKv.Lookup.Laws.{bigkv_index_get_lem}

abbrev full : Bucket
full j = record {
  fingerprint = 10 + j;
  dirty_bit = true;
  lru_bit = 3 - j;
  kv_size = 8;
  pba = 8 * j;
}

full-IsLruOrder : IsLruOrder full
full-IsLruOrder = record { small = λ i lt. omega arith; distinct = λ i j li lj ne low. omega arith }

abbrev index : Index
index = record bigkv_index_init { bucket = λ i. if i == 0 then full else init_bucket }

index-AllLruOrder : AllLruOrder index
index-AllLruOrder i = choose (i == 0)
  where
    choose : (b : Bool) → IsLruOrder (if b then full else init_bucket)
    choose true = full-IsLruOrder
    choose false = init_bucket-IsLruOrder

abbrev request : ReqType → BiRequest
request t = record {
  type = t;
  seq_num = 1;
  key = record { key = 97 ∷ []; len = 1; hash_low = 99; hash_high = 0 };
  value = record { value = 0 ∷ 0 ∷ 0 ∷ []; len = 1024 };
  params = record { params = none; temp_buf = empty_table };
}

abbrev alloc : ℕ → ℕ → ℕ × ℕ
alloc s n = (s, s + 8)

abbrev outcome : Index × ℕ × BiRequest × SetIo
outcome = bigkv_index_set alloc index 40 (request ReqType.set)

abbrev table : PartTable
unfolding bigkv_index_set set_from bi_get_entry bi_write_ptable get_target_entry find_entry
    clean_victim update_part_table update_buckets update_bucket insert_to_ptable scan_insert
table = elim outcome.3 [ SetIo.write_ptable p t ↦ t | _ ↦ empty_table ]

bigkv_index_set-AllLruOrder_example : AllLruOrder outcome.0
bigkv_index_set-AllLruOrder_example =
    bigkv_index_set-AllLruOrder alloc index 40 (request ReqType.set) index-AllLruOrder

bigkv_index_get_lem_example :
    AllLruOrder (bigkv_index_get alloc index 40 (request ReqType.get)).0
    × ((bigkv_index_get alloc index 40 (request ReqType.get)).3 ≢ fault)
bigkv_index_get_lem_example =
    bigkv_index_get_lem alloc index 40 (request ReqType.get) index-AllLruOrder
