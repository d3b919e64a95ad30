-- ===== src/Tests/Store.antt =====
-- A pair stored and read back on an empty device of src/device.c, through src/hopscotch.c.
use udepot_hopscotch.Base.{
  get_or, ◌<◌, ℕ, ◌+◌, ◌*◌, ◌/◌, ◌^◌, length, replicate, ◌≡◌, refl, inl, none, List, [], ◌∷◌, arith,
  update,
}
use Prim.Native.Nat.{Ordering}
use udepot_hopscotch.Pair.{KeyStruct, keycmp_k_v, copy_key_to_value}
use udepot_hopscotch.Pair.Compare.{keycmp_k_v_iff}
use udepot_hopscotch.Request.{ReqType}
use udepot_hopscotch.Hopscotch.Table.{
  Table, init_table, find_matching_tag, find_free_entry, scan_tag, scan_free, fill_entry, max_hop,
}
use udepot_hopscotch.Hopscotch.Ops.{
  HopRequest, hopscotch_set, set_from, insert_key_match, insert_key_mismatch,
}
use udepot_hopscotch.Hopscotch.Drive.{found, stored, run_get, run_set, after_set, set_called_back}
use udepot_hopscotch.Hopscotch.Drive.Set.{new_entry}
use udepot_hopscotch.Hopscotch.Drive.SetGet.{Hits}
use udepot_hopscotch.Device.{
  Dev, bump, round_up, dev_abs_write, dev_abs_init, get_next_pba, grain_unit,
}
use udepot_hopscotch.Device.Alloc.{dev_abs_init-IsValid}
use udepot_hopscotch.Store.{fetch, write}
use udepot_hopscotch.Store.Sound.{IsSound, Reads, IsSetRequest, run_set-IsSound}
use udepot_hopscotch.Store.Other.{HasPair, set_then_get-other}
use udepot_hopscotch.Store.New.{run_set-HasPair}
use udepot_hopscotch.Store.Run.{StoredPair, Run, empty, set, Run-get}
use udepot_hopscotch.Store.SetGet.{set_then_get-write}

-- Four segments, the key "ab" with tag 5, and a value of one grain.
abbrev four : Dev
four = dev_abs_init (4 * 4096) 512 (λ i. 0)

abbrev ab : KeyStruct
ab = record { key = 97 ∷ 98 ∷ []; len = 2; hash_low = 5 * 2 ^ 27 + 3; hash_high = 9 }

abbrev rest : List ℕ
rest = replicate 125 7

abbrev request : ReqType → HopRequest
request t = record {
  type = t;
  seq_num = 1;
  key = ab;
  value = record { value = 0 ∷ 0 ∷ 0 ∷ rest; len = 128 };
  params = none;
}

sound : IsSound four init_table
unfolding dev_abs_init
sound = record {
  valid = dev_abs_init-IsValid (4 * 4096) 512 (λ i. 0) (omega arith);
  few = omega arith;
  ranges = λ i. record {
    neigh_off = omega arith;
    key_fp_tag = omega arith;
    kv_size = omega arith;
    pba = omega arith;
  };
  kept = λ i. inl refl;
}

more : four.staged_seg_idx + 1 < four.nr_segment
unfolding dev_abs_init
more = omega arith

is_set : IsSetRequest (request ReqType.set) 128
is_set = record {
  set = refl;
  new = refl;
  in_array = omega arith;
  small = omega arith;
  holds_key = omega arith;
  whole = omega arith;
  buffer = omega arith;
}

reads : (i : ℕ) → Reads ab 128 (init_table i)
reads i tag = absurd (omega (arith, tag))

abbrev one_pair : Table
one_pair = update init_table 3 (new_entry get_next_pba four ab 128 0)

abbrev dev' : Dev
dev' = (get_next_pba four 128).1

abbrev pba : ℕ
pba = (new_entry get_next_pba four ab 128 0).pba

abbrev size : ℕ
size = (new_entry get_next_pba four ab 128 0).kv_size

abbrev bytes : List ℕ
bytes = 2 ∷ 97 ∷ 98 ∷ rest

run :
    run_set (fetch four) get_next_pba (max_hop + 2) init_table four (request ReqType.set)
    ≡ stored one_pair dev' pba size bytes
unfolding run_set after_set set_called_back hopscotch_set set_from insert_key_mismatch
    insert_key_match find_matching_tag scan_tag find_free_entry scan_free copy_key_to_value
run = refl

run_set-IsSound_example :
    IsSound (write dev' pba size bytes) one_pair × ((i : ℕ) → Reads ab 128 (one_pair i))
run_set-IsSound_example =
    run_set-IsSound four init_table (request ReqType.set) 128 sound more is_set reads one_pair dev'
      pba size bytes run

set_then_get-write_example :
    (q : HopRequest) × (run_get
        (fetch (write dev' pba size bytes))
        (max_hop + 1)
        one_pair
        (request ReqType.get)
      ≡ found q)
    × ((i : ℕ) → i < 128 / grain_unit * grain_unit → get_or q.value.value i 0 ≡ get_or bytes i 0)
set_then_get-write_example =
    set_then_get-write four init_table (request ReqType.set) (request ReqType.get) 128 sound more
      is_set reads one_pair dev' pba size bytes run refl refl refl (omega arith)

-- Then a pair of the key "cd", with home 7 and tag 6.
abbrev cd : KeyStruct
cd = record { key = 99 ∷ 100 ∷ []; len = 2; hash_low = 6 * 2 ^ 27 + 7; hash_high = 9 }

abbrev dev1 : Dev
dev1 = write dev' pba size bytes

abbrev request_cd : HopRequest
request_cd = record (request ReqType.set) { key = cd }

more1 : dev1.staged_seg_idx + 1 < dev1.nr_segment
unfolding dev_abs_init get_next_pba bump round_up dev_abs_write
more1 = omega arith

reads_cd : (i : ℕ) → Reads cd 128 (one_pair i)
unfolding fill_entry
reads_cd i tag = absurd (ground (arith, tag))

fresh_cd : (i : ℕ) → Hits (fetch dev1) cd (one_pair i) → ⊥
unfolding fill_entry
fresh_cd i (tag, e) = ground (arith, tag)

abbrev two_pairs : Table
two_pairs = update one_pair 7 (new_entry get_next_pba dev1 cd 128 0)

abbrev bytes_cd : List ℕ
bytes_cd = 2 ∷ 99 ∷ 100 ∷ rest

run_cd :
    run_set (fetch dev1) get_next_pba (max_hop + 2) one_pair dev1 request_cd
    ≡ stored two_pairs
        (get_next_pba dev1 128).1
        (new_entry get_next_pba dev1 cd 128 0).pba
        (new_entry get_next_pba dev1 cd 128 0).kv_size
        bytes_cd
unfolding run_set after_set set_called_back hopscotch_set set_from insert_key_mismatch
    insert_key_match find_matching_tag scan_tag find_free_entry scan_free copy_key_to_value
    fill_entry
run_cd = refl

-- No pair has both keys.
apart : (b : List ℕ) → keycmp_k_v cd b ≡ Ordering.eq → keycmp_k_v ab b ≡ Ordering.eq → ⊥
apart b c a =
    let first_c = ((keycmp_k_v_iff cd b).0 c).1 0 (omega arith) (λ j lt. absurd (omega arith)) in
    let first_a = ((keycmp_k_v_iff ab b).0 a).1 0 (omega arith) (λ j lt. absurd (omega arith)) in
    omega (arith, first_c, first_a)

is_set_cd : IsSetRequest request_cd 128
is_set_cd = record {
  set = refl;
  new = refl;
  in_array = omega arith;
  small = omega arith;
  holds_key = omega arith;
  whole = omega arith;
  buffer = omega arith;
}

sound1 : IsSound dev1 one_pair × ((i : ℕ) → Reads ab 128 (one_pair i))
sound1 =
    run_set-IsSound four init_table (request ReqType.set) 128 sound more is_set reads one_pair dev'
      pba size bytes run

has_ab : HasPair dev1 one_pair ab pba size
has_ab =
    run_set-HasPair four init_table (request ReqType.set) 128 sound more is_set reads one_pair dev'
      pba size bytes run (λ i h. absurd (omega (arith, h.0)))

set_then_get-other_example :
    HasPair
      (write
        (get_next_pba dev1 128).1
        (new_entry get_next_pba dev1 cd 128 0).pba
        (new_entry get_next_pba dev1 cd 128 0).kv_size
        bytes_cd)
      two_pairs
      ab
      pba
      size
    × ((q : HopRequest) × (run_get
            (fetch (
              write
                (get_next_pba dev1 128).1
                (new_entry get_next_pba dev1 cd 128 0).pba
                (new_entry get_next_pba dev1 cd 128 0).kv_size
                bytes_cd))
            (max_hop + 1)
            two_pairs
            (request ReqType.get)
          ≡ found q)
        × ((i : ℕ)
            → i < length (fetch dev1 pba size)
            → get_or q.value.value i 0 ≡ get_or (fetch dev1 pba size) i 0))
set_then_get-other_example =
    set_then_get-other dev1 one_pair request_cd (request ReqType.get) 128 128 sound1.0 more1
      is_set_cd reads_cd sound1.1 (omega arith) (omega arith) two_pairs (get_next_pba dev1 128).1
      (new_entry get_next_pba dev1 cd 128 0).pba (new_entry get_next_pba dev1 cd 128 0).kv_size
      bytes_cd run_cd apart pba size has_ab refl refl (omega arith)

abbrev ab_pair : StoredPair
ab_pair = record { key = ab; pba = pba; size = size; value = bytes }

abbrev cd_pair : StoredPair
cd_pair = record {
  key = cd;
  pba = (new_entry get_next_pba dev1 cd 128 0).pba;
  size = (new_entry get_next_pba dev1 cd 128 0).kv_size;
  value = bytes_cd;
}

abbrev dev2 : Dev
dev2 = write (get_next_pba dev1 128).1 cd_pair.pba cd_pair.size bytes_cd

reads_both : (i : ℕ) → Reads ab 128 (two_pairs i)
unfolding fill_entry
reads_both i tag = ground (arith, tag)

both_stored : Run dev2 two_pairs (cd_pair ∷ ab_pair ∷ [])
both_stored =
    set dev1 one_pair (ab_pair ∷ []) request_cd 128 two_pairs (get_next_pba dev1 128).1 cd_pair.pba
      cd_pair.size bytes_cd
      (set four init_table [] (request ReqType.set) 128 one_pair dev' pba size bytes
        (empty four sound) more is_set reads (λ i h. absurd (omega (arith, h.0))) tt run)
      more1 is_set_cd reads_cd fresh_cd (apart, tt) run_cd

Run-get_example :
    (q : HopRequest) × (run_get (fetch dev2) (max_hop + 1) two_pairs (request ReqType.get)
      ≡ found q)
    × ((i : ℕ) → i < size * grain_unit → get_or q.value.value i 0 ≡ get_or bytes i 0)
Run-get_example =
    Run-get dev2 two_pairs (cd_pair ∷ []) [] ab_pair (request ReqType.get) 128 both_stored refl refl
      refl reads_both (omega arith)
