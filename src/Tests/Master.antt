-- ===== src/Tests/Master.antt =====
-- Two messages for two devices, as src/master.c hands them out.
use udepot_hopscotch.Base.{List, ℕ, ◌≤◌, ◌≡◌, refl, [], ◌∷◌, ◌++◌, arith, length}
use udepot_hopscotch.CondLock.{cl_init, cl_grap}
use udepot_hopscotch.Handler.{
  Handler, make_request_from_netreq, handler_init, fill_pool, forward_req_to_hlr,
}
use udepot_hopscotch.Handler.Flow.{tally}
use udepot_hopscotch.Master.Route.{waiting}
use udepot_hopscotch.Wire.{netreq_size, send_request, send_request_bulk}
use udepot_hopscotch.Tests.Wire.{both, both-AllPacked, pieces, first_read}
use udepot_hopscotch.Tests.Handler.{
  hash, get_ab, set_b, small, req_arr, one_queued, one_queued-Reach,
}
use udepot_hopscotch.Queue.Spec.{enqueue, dequeue}
use udepot_hopscotch.Handler.Serve.{serve_all}
use udepot_hopscotch.Master.Answer.{answers}
use udepot_hopscotch.Master.Reached.{IsReached}
use udepot_hopscotch.Master.{max_netreq_buf}
use udepot_hopscotch.Wire.{Arrival, closed, read_sock_bulk, read_loop}
use udepot_hopscotch.Master.Loop.{
  Front, readable, polling, stopped, ready, remove, process_events, master_thread,
}
use udepot_hopscotch.Master.Loop.Laws.{master_thread-disconnect}
use udepot_hopscotch.Master.Loop.Answers.{Bulk, IsBulk, events_of, sent_to, process_events-reached}

abbrev handlers : ℕ → Handler
handlers i = small

pub one_queued-IsReached : (n : ℕ) → n ≤ 128 → IsReached hash req_arr n one_queued
unfolding tally make_request_from_netreq dequeue handler_init fill_pool enqueue forward_req_to_hlr
    cl_grap cl_init
one_queued-IsReached n le = record {
  run = one_queued-Reach;
  none_made = refl;
  no_retry = refl;
  room = omega arith;
}

-- Handlers with one request that waits get the first of two messages, and then another client's one.
abbrev bulks : List Bulk
bulks =
    record {
      fd = 5;
      rs = pieces;
      nrs = both;
      read = send_request get_ab;
      left = send_request_bulk (set_b ∷ []);
    }
    ∷ record {
      fd = 6;
      rs = pieces;
      nrs = both;
      read = send_request get_ab;
      left = send_request_bulk (set_b ∷ []);
    }
    ∷ []

one-IsBulk :
    (fd : ℕ)
    → IsBulk (record {
      fd = fd;
      rs = pieces;
      nrs = both;
      read = send_request get_ab;
      left = send_request_bulk (set_b ∷ []);
    })
one-IsBulk fd = record {
  packed = both-AllPacked;
  fit = (omega arith, refl, (omega arith, refl, tt));
  arrives = first_read;
}

process_events-reached_example :
    let mas : Front = record { hlr = λ j. one_queued.hlr; clients = 5 ∷ 6 ∷ [] } in
    let r = process_events hash 16 (events_of bulks) mas in
    (r.0 ≡ polling)
    × ((i : ℕ)
        → let ms = waiting one_queued.hlr ++ sent_to hash 16 i bulks in
          (serve_all hash (length ms) ((r.1).hlr i)).0 ≡ answers ms)
process_events-reached_example =
    process_events-reached hash 16 req_arr bulks (λ i. one_queued) (5 ∷ 6 ∷ []) (λ p. refl)
      (one-IsBulk 5, (one-IsBulk 6, tt)) (λ i. one_queued-IsReached 4 (omega arith))

abbrev front : Front
front = record { hlr = handlers; clients = 5 ∷ [] }

-- The socket 5 is closed, with nothing read from it.
hung_up : read_sock_bulk max_netreq_buf netreq_size (Arrival.avail 0 ∷ []) [] ≡ (closed, [])
unfolding read_sock_bulk read_loop
hung_up = refl

nothing_before : master_thread hash 16 [] front ≡ (polling, front)
unfolding master_thread
nothing_before = refl

no_events : process_events hash 16 [] front ≡ (polling, front)
unfolding process_events
no_events = refl

master_thread-disconnect_example :
    master_thread hash 16
      (ready
          (readable 5 (Arrival.avail 0 ∷ []) [] ∷ readable 6 pieces (send_request_bulk both) ∷ [])
        ∷ [])
      front
    ≡ (stopped, record front { clients = remove 5 (5 ∷ []) })
master_thread-disconnect_example =
    master_thread-disconnect hash 16 [] (readable 6 pieces (send_request_bulk both) ∷ []) [] []
      front front front 5 (Arrival.avail 0 ∷ []) [] [] nothing_before no_events hung_up
