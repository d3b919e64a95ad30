-- ===== src/Tests/Hopscotch.antt =====
-- Runs of src/hopscotch.c on a table with at most one pair, and uses of its theorems there.
use Prim.Native.Nat.{Ordering}
use udepot_hopscotch.Base.{
  get_or, length, ◌<◌, ℕ, ◌+◌, ◌*◌, ◌^◌, ◌≡◌, ◌≢◌, ◌⊎◌, ◌↔◌, refl, none, some, List, [], ◌∷◌, arith,
  update, ◌==◌, if◌then◌else◌,
}
use udepot_hopscotch.Pair.{KeyStruct, copy_key_to_value, keycmp_k_v, strncmp}
use udepot_hopscotch.Request.{ReqType, make_hop_params}
use udepot_hopscotch.Hopscotch.Table.{
  Table, Entry, slot, init_table, find_matching_tag, find_free_entry, scan_tag, scan_free,
  fill_entry, max_hop, pba_invalid,
}
use udepot_hopscotch.Hopscotch.Table.Free.{InRange}
use udepot_hopscotch.Hopscotch.Table.Place.{Holds, IsNew, find_free_entry-Holds}
use udepot_hopscotch.Hopscotch.Ops.{
  HopRequest, idx_of, tag_of, Io, hopscotch_set, hopscotch_get, set_from, insert_key_match,
  insert_key_mismatch,
}
use udepot_hopscotch.Hopscotch.Ops.Laws.{hopscotch_set-Holds, hopscotch_set-empty_entry}
use udepot_hopscotch.Hopscotch.Drive.{found, stored, run_get, run_set, after_set, set_called_back}
use udepot_hopscotch.Hopscotch.Drive.Get.{Delivers, GetsFirst, run_get_total}
use udepot_hopscotch.Hopscotch.Drive.Set.{SetsFirst, new_entry}
use udepot_hopscotch.Hopscotch.Drive.Set.Total.{run_set_total}
use udepot_hopscotch.Hopscotch.Drive.Set.Overwrite.{run_set-overwrite}
use udepot_hopscotch.Hopscotch.Drive.SetGet.{set_then_get}

-- The key "ab" with home 3 and tag 5, and one with tag 0.
abbrev ab : KeyStruct
ab = record { key = 97 ∷ 98 ∷ []; len = 2; hash_low = 5 * 2 ^ 27 + 3; hash_high = 9 }

abbrev untagged : KeyStruct
untagged = record { key = 97 ∷ 98 ∷ []; len = 2; hash_low = 3; hash_high = 9 }

abbrev buffer : List ℕ
buffer = 0 ∷ 0 ∷ 0 ∷ 7 ∷ []

abbrev request : ReqType → KeyStruct → HopRequest
request t k = record {
  type = t;
  seq_num = 1;
  key = k;
  value = record { value = buffer; len = 1024 };
  params = none;
}

-- Addresses in a row, eight grains each, and the bytes at them: the pair of "ab" at 10 only.
abbrev alloc : ℕ → ℕ → ℕ × ℕ
alloc s n = (s, s + 8)

abbrev blank : ℕ → ℕ → List ℕ
blank p s = 2 ∷ 120 ∷ 120 ∷ 7 ∷ []

abbrev pub disk : ℕ → ℕ → List ℕ
disk p s =
    (if p == 10 then 2 else 2)
    ∷ (if p == 10 then 97 else 120)
    ∷ (if p == 10 then 98 else 120)
    ∷ 7
    ∷ []

abbrev ab_entry : Entry
ab_entry = record { neigh_off = 0; key_fp_tag = 5; kv_size = 8; pba = 10 }

abbrev pub one_pair : Table
one_pair = update init_table 3 ab_entry

init_ranges : (i : ℕ) → InRange (init_table i)
init_ranges i = record {
  neigh_off = omega arith;
  key_fp_tag = omega arith;
  kv_size = omega arith;
  pba = omega arith;
}

blank-Delivers : (t : Table) → Delivers blank t (request ReqType.set ab)
blank-Delivers t o lt tag = (omega arith, omega arith)

disk-Delivers : (r : ReqType) (t : Table) → Delivers disk t (request r ab)
disk-Delivers r t o lt tag = (omega arith, omega arith)

-- A new key goes to its home.
ab-set :
    run_set blank alloc (max_hop + 2) init_table 10 (request ReqType.set ab)
    ≡ stored one_pair 18 10 8 (2 ∷ 97 ∷ 98 ∷ 7 ∷ [])
unfolding run_set after_set set_called_back hopscotch_set set_from insert_key_mismatch
    insert_key_match find_matching_tag scan_tag find_free_entry scan_free fill_entry
    copy_key_to_value
ab-set = refl

one_ranges : (i : ℕ) → InRange (one_pair i)
one_ranges i = record {
  neigh_off = ground arith;
  key_fp_tag = ground arith;
  kv_size = ground arith;
  pba = ground arith;
}

second_free : find_free_entry one_pair 3 ≡ some (1, one_pair)
unfolding find_free_entry scan_free
second_free = refl

abbrev second : Entry
second = record { neigh_off = 1; key_fp_tag = 6; kv_size = 8; pba = 18 }

find_free_entry-Holds_example :
    Holds (update one_pair (slot 3 1) second) 3 5 8 10
    ↔ (IsNew 3 second 3 5 8 10 ⊎ Holds one_pair 3 5 8 10)
find_free_entry-Holds_example =
    find_free_entry-Holds one_pair 3 1 one_pair second one_ranges (omega arith) second_free refl 3 5
      8 10 (omega arith) (omega arith)

abbrev stored_request : HopRequest
stored_request = record (request ReqType.set ab) {
  value = record { value = 2 ∷ 97 ∷ 98 ∷ 7 ∷ []; len = 1024 };
  params = some make_hop_params;
}

first_call :
    hopscotch_set alloc init_table 10 (request ReqType.set ab)
    ≡ (one_pair, 18, stored_request, Io.write 10 8 (2 ∷ 97 ∷ 98 ∷ 7 ∷ []))
unfolding hopscotch_set set_from insert_key_mismatch insert_key_match find_matching_tag scan_tag
    find_free_entry scan_free fill_entry copy_key_to_value
first_call = refl

hopscotch_set-Holds_example : Holds one_pair 3 5 8 10 ↔ (
    ((3 ≡ idx_of ab) × (5 ≡ tag_of ab) × ◌≡◌ {A = ℕ} 8 8 × ◌≡◌ {A = ℕ} 10 10)
    ⊎ Holds init_table 3 5 8 10)
hopscotch_set-Holds_example =
    hopscotch_set-Holds alloc init_table 10 (request ReqType.set ab) init_ranges (λ e. cc)
      first_call 3 5 8 10 (omega arith) (omega arith)

hopscotch_set-empty_entry_example :
    ((hopscotch_set alloc init_table 10 (request ReqType.set untagged)).3 ≡ Io.read pba_invalid 0)
    × ((hopscotch_get init_table (request ReqType.set untagged)).1 ≡ Io.read pba_invalid 0)
hopscotch_set-empty_entry_example =
    hopscotch_set-empty_entry alloc init_table 10 (request ReqType.set untagged) refl (omega arith)
      refl

run_get_total_example :
    GetsFirst disk one_pair ab 0 (run_get disk (max_hop + 1) one_pair (request ReqType.get ab))
run_get_total_example =
    run_get_total disk one_pair (request ReqType.get ab) refl refl
      (disk-Delivers ReqType.get one_pair)

run_set_total_example :
    SetsFirst alloc disk one_pair 18
      (request ReqType.set ab)
      0
      (run_set disk alloc (max_hop + 2) one_pair 18 (request ReqType.set ab))
run_set_total_example =
    run_set_total alloc disk one_pair 18 (request ReqType.set ab) refl refl (omega arith)
      (omega arith) (disk-Delivers ReqType.set one_pair)

finds_ab : find_matching_tag one_pair 3 0 5 ≡ some 0
unfolding find_matching_tag scan_tag
finds_ab = refl

same_ab : keycmp_k_v ab (disk 10 8) ≡ Ordering.eq
unfolding keycmp_k_v strncmp
same_ab = refl

run_set-overwrite_example :
    run_set disk alloc 34 one_pair 18 (request ReqType.set ab)
    ≡ stored
        (update one_pair 3 (new_entry alloc 18 ab 1024 0))
        26
        (new_entry alloc 18 ab 1024 0).pba
        (new_entry alloc 18 ab 1024 0).kv_size
        (copy_key_to_value ab (disk 10 8))
run_set-overwrite_example =
    run_set-overwrite alloc disk one_pair 18 (request ReqType.set ab) 0 32 refl refl finds_ab
      same_ab refl

elsewhere : (p s : ℕ) → p ≢ 10 → disk p s ≡ 2 ∷ 120 ∷ 120 ∷ 7 ∷ []
elsewhere p s ne = ground arith

set_then_get_example :
    (r : HopRequest) × (run_get disk (max_hop + 1) one_pair (request ReqType.get ab) ≡ found r)
    × ((i : ℕ) → i < length (disk 10 8) → get_or r.value.value i 0 ≡ get_or (disk 10 8) i 0)
set_then_get_example =
    set_then_get alloc blank disk init_table one_pair 10 18 (request ReqType.set ab)
      (request ReqType.get ab) 10 8 (2 ∷ 97 ∷ 98 ∷ 7 ∷ []) refl refl (omega arith) (omega arith)
      (blank-Delivers init_table) init_ranges ab-set
      (λ i. elsewhere (init_table i).pba (init_table i).kv_size (omega arith)) same_ab refl refl
      refl (disk-Delivers ReqType.get one_pair)
