-- ===== src/Tests/Client.antt =====
-- A client of src/client.cc with three keys to load, and one with 200 keys to query.
use udepot_hopscotch.Base.{
  ℕ, ◌+◌, ◌*◌, ◌≡◌, ◌≢◌, ◌/◌, ◌++◌, take, refl, some, List, arith, length, [], ◌∷◌,
}
use udepot_hopscotch.Handler.{NetReq}
use udepot_hopscotch.Keygen.{
  Keygen, locality, hotspot, get_next_key_for_load, keygen_init, fill_keys, digits,
}
use udepot_hopscotch.Keygen.Choice.{set_key_dist-IsSized}
use udepot_hopscotch.Client.{load_bulk, load_kvpairs, run_bench}
use udepot_hopscotch.Client.Load.{load_requests, seq_after, joined, Bulks, load_kvpairs_lem}
use udepot_hopscotch.Client.Served.{load_bulk-answers}
use udepot_hopscotch.Handler.{Handler}
use udepot_hopscotch.Handler.Serve.{serve_all}
use udepot_hopscotch.Wire.{
  netreq_size, bytes_le, send_request, send_request_bulk, Arrival, avail, received, read_loop,
  read_sock_bulk,
}
use udepot_hopscotch.Master.{max_netreq_buf, process_request}
use udepot_hopscotch.Master.Route.{waiting, messages}
use udepot_hopscotch.Master.Total.{routed}
use udepot_hopscotch.Master.Answer.{answers}
use udepot_hopscotch.Tests.Handler.{hash, req_arr, one_queued}
use udepot_hopscotch.Tests.Master.{one_queued-IsReached}
use udepot_hopscotch.Client.Query.{Queries, run_bench_total}

abbrev rand : ℕ → ℕ
rand n = n * 7 + 3

abbrev three : Keygen
three = keygen_init rand 3 32

three_left : 0 + 3 ≡ three.nr_key
unfolding keygen_init
three_left = refl

none_loaded : three.load_cnt ≡ 0
unfolding keygen_init
none_loaded = refl

load_kvpairs_lem_example :
    (bulks : List (List NetReq)) × (load_kvpairs three.nr_key 3 0 three 10
      ≡ some (bulks, record three { load_cnt = three.nr_key }, seq_after 3 10))
    × (joined bulks ≡ load_requests three.key_pool 0 3 10)
    × Bulks bulks
load_kvpairs_lem_example = load_kvpairs_lem 3 3 0 three 10 three_left none_loaded (omega arith)

abbrev fresh : Keygen
fresh = keygen_init rand 200 32

locality_known : locality ≢ hotspot
locality_known e = cc

run_bench_total_example :
    (nrs : List NetReq) × (last : Keygen × ℕ) × (run_bench rand 5 fresh locality 80 20 10
      ≡ some (nrs, last.0, last.1))
    × (length nrs ≡ 5)
    × Queries fresh.key_pool fresh.nr_key 10 nrs
run_bench_total_example =
    run_bench_total rand 5 fresh locality 80 20 10
      (set_key_dist-IsSized rand 200 32 80 20 locality (omega arith) (omega arith) (omega arith)
        (omega arith))
      locality_known

-- The bulk of the last two of the three keys, which arrives whole.
abbrev two_left : List NetReq
two_left = (load_bulk 128 (record three { load_cnt = 1 }) 10).0

abbrev whole : List Arrival
whole = avail 100 ∷ []

read_whole :
    read_sock_bulk max_netreq_buf netreq_size whole (send_request_bulk two_left)
    ≡ (received (send_request_bulk two_left), [])
unfolding read_sock_bulk read_loop send_request_bulk send_request bytes_le keygen_init fill_keys
    digits load_bulk get_next_key_for_load
read_whole = refl

load_bulk-answers_example :
    let hlr : ℕ → Handler = λ j. one_queued.hlr in
    let ms =
      waiting one_queued.hlr
      ++ messages 5
          (routed hash 16 8 (take (length (send_request_bulk two_left) / netreq_size) two_left)) in
    (serve_all hash
      (length ms)
      ((process_request hash 16 5 whole (send_request_bulk two_left) hlr).1 8)).0
    ≡ answers ms
load_bulk-answers_example =
    load_bulk-answers hash 16 5 req_arr whole (λ i. one_queued) (send_request_bulk two_left) [] rand
      3 1 2 128 10 (λ p. refl) refl (λ i. one_queued-IsReached 128 (omega arith)) read_whole 8
