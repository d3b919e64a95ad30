-- ===== src/Client.antt =====
-- The client of src/client.cc: the requests that it sends to load the store and to query it. Its
-- semaphore, which makes it wait for acknowledgements, is taken to let it through.
pub mod Load
pub mod Query
pub mod Served
use udepot_hopscotch.Base.{
  ℕ, zero, suc, ◌+◌, ◌%◌, ◌^◌, Option, none, some, List, [], ◌∷◌, length, take, ltb, if◌then◌else◌,
}
use udepot_hopscotch.Request.{ReqType}
use udepot_hopscotch.Handler.{NetReq}
use udepot_hopscotch.Keygen.{
  Keygen, KeyDist, NextKey, set_key_dist, get_next_key, get_next_key_for_load,
}

-- A request of `nr_arr` of `load_kvpairs`, and the one of `run_bench`: `KEY_LEN` bytes of the key, and
-- `VALUE_LEN`.
abbrev pub load_request : List ℕ → ℕ → NetReq
load_request key seq_num = record {
  type = ReqType.set;
  keylen = 32;
  seq_num = seq_num;
  key = take 32 key;
  kv_size = 1024;
}

abbrev pub query_request : List ℕ → ℕ → NetReq
query_request key seq_num = record {
  type = ReqType.get;
  keylen = 32;
  seq_num = seq_num;
  key = take 32 key;
  kv_size = 1024;
}

-- `++seq_num_global`
abbrev pub next_seq : ℕ → ℕ
next_seq seq_num = (seq_num + 1) % 2 ^ 32

-- The inner loop of `load_kvpairs`, with `n` places of `nr_arr` left: what it puts there.
unfoldable pub load_bulk : ℕ → Keygen → ℕ → List NetReq × Keygen × ℕ
load_bulk zero kg seq_num = ([], kg, seq_num)
load_bulk (suc n) kg seq_num =
    let (next_key, kg') = get_next_key_for_load kg in
    let rest = load_bulk n kg' (next_seq seq_num) in
    elim next_key [
      | NextKey.key k ↦ (load_request k (next_seq seq_num) ∷ rest.0, rest.1, rest.2)
      | NextKey.null ↦ ([], kg', seq_num)
      | NextKey.fault ↦ ([], kg', seq_num)
    ]

-- `load_kvpairs` for `nr_key` keys, with fuel: the bulks that it sends.
unfoldable pub load_kvpairs : ℕ → ℕ → ℕ → Keygen → ℕ → Option (List (List NetReq) × Keygen × ℕ)
unfolding load_bulk
load_kvpairs nr_key zero i kg seq_num = if ltb i nr_key then none else some ([], kg, seq_num)
load_kvpairs nr_key (suc fuel) i kg seq_num =
    let (bulk, kg', seq_num') = load_bulk 128 kg seq_num in
    let rest = load_kvpairs nr_key fuel (i + length bulk) kg' seq_num' in
    if ltb i nr_key
    then (elim rest [ none ↦ none | some r ↦ some (bulk ∷ r.0, r.1, r.2) ])
    else some ([], kg, seq_num)

module _ (rand : ℕ → ℕ) where
  -- The loop of `run_bench` for `n` queries: what it sends. `none` is a copy from NULL or a division by 0.
  unfoldable pub run_queries : ℕ → Keygen → ℕ → Option (List NetReq × Keygen × ℕ)
  run_queries zero kg seq_num = some ([], kg, seq_num)
  run_queries (suc n) kg seq_num =
      let (next_key, kg') = get_next_key rand kg in
      let rest = run_queries n kg' (next_seq seq_num) in
      elim next_key [
        | NextKey.key k ↦ elim rest [
          | none ↦ none
          | some r ↦ some (query_request k (next_seq seq_num) ∷ r.0, r.1, r.2)
        ]
        | NextKey.null ↦ none
        | NextKey.fault ↦ none
      ]

  -- `run_bench` with `nr_query` queries
  unfoldable pub run_bench : ℕ → Keygen → KeyDist → ℕ → ℕ → ℕ → Option (List NetReq × Keygen × ℕ)
  unfolding run_queries
  run_bench nr_query kg dist query_ratio hotset_ratio seq_num =
      run_queries nr_query (set_key_dist rand kg dist query_ratio hotset_ratio) seq_num
