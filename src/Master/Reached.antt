-- ===== src/Master/Reached.antt =====
-- The handlers of src/handler.c in any state of a run, as src/master.c finds them.
use udepot_hopscotch.Base.{ℕ, ◌+◌, ◌/◌, ◌≤◌, ◌≡◌, ap, List, [], ◌++◌, arith, length, take}
use udepot_hopscotch.Handler.{Handler, NetReq, Slot, qdepth, handler_init}
use udepot_hopscotch.Handler.Flow.{
  System, Reach, tally, one, tally-one, zero_at, no_null, size_all, in_flight,
}
use udepot_hopscotch.Handler.Flow.Invariant.{idle, handler_init-IsFlow}
use udepot_hopscotch.Handler.Flow.Once.{all_once}
use udepot_hopscotch.Handler.Flow.Arrays.{HasArrays, Reach-HasArrays}
use udepot_hopscotch.Handler.Serve.{serve_all}
use udepot_hopscotch.Wire.{netreq_size, send_request_bulk, Arrival, received, read_sock_bulk}
use udepot_hopscotch.Wire.Codec.{AllPacked}
use udepot_hopscotch.Master.{max_netreq_buf, process_request}
use udepot_hopscotch.Master.Route.{waiting, messages, IsReady}
use udepot_hopscotch.Handler.Flow.Once.{at}
use udepot_hopscotch.Master.Total.{HasRoom, Fit, routed}
use udepot_hopscotch.Master.Answer.{IsServable, answers, process_request-answers}

-- A handler in a state of a run, between two calls of `__process_request` and with nothing to retry, with
-- room for `n` requests more.
pub record IsReached (hash : List ℕ → ℕ × ℕ) (req_arr : ℕ → Slot) (n : ℕ) (s : System)
    : Type 0 where
  pub run : Reach hash (idle req_arr) s
  pub none_made : s.made ≡ []
  pub no_retry : (s.hlr).retry_q ≡ []
  pub room : in_flight one s + n ≤ qdepth

module _ {hash : List ℕ → ℕ × ℕ} {req_arr : ℕ → Slot} {n : ℕ} {s : System} where
  pub reached-HasRoom : IsReached hash req_arr n s → HasRoom n s.hlr
  unfolding tally
  reached-HasRoom r =
      let v = handler_init-IsFlow hash req_arr s r.run in
      let no_made = ap (tally one) r.none_made in
      record {
        pool =
            omega (arith, v.conserved one, size_all, no_made, tally-one (s.hlr).req_pool, r.room);
        live = omega (arith, v.conserved zero_at, no_null);
        counts = v.counts;
        lock = omega (arith, v.now, v.limit, r.room);
        word = omega (arith, v.limit);
        queue = omega (arith, tally-one (s.hlr).req_q, r.room);
      }

  pub reached-IsReady : HasArrays req_arr → IsReached hash req_arr n s → IsReady s.hlr
  unfolding handler_init
  reached-IsReady arrays r =
      let v = handler_init-IsFlow hash req_arr s r.run in
      record {
        once = λ q. omega (arith, v.conserved (at q), all_once q);
        array = Reach-HasArrays hash r.run arrays;
      }

  pub reached-IsServable : IsReached hash req_arr n s → IsServable s.hlr
  reached-IsServable r =
      let v = handler_init-IsFlow hash req_arr s r.run in
      record {
        no_retry = r.no_retry;
        live = omega (arith, v.conserved zero_at, no_null);
        room =
            omega (
              arith,
              v.conserved one,
              size_all,
              tally-one (s.hlr).req_pool,
              tally-one (s.hlr).req_q,
            );
      }

-- Let every handler be in a state that its threads reach from `handler_init`, with nothing to retry, and
-- with room in its lock for a bulk of requests that a client writes. Then of the requests that a call of
-- `__process_request` reads, each is acknowledged: every handler, in as many rounds as messages wait
-- with it, sends an acknowledgement for each message that waited before and then for each one of the bulk
-- that the hash of the key sends to it, once each, in their order, to the socket that it came from.
pub process_request-reached :
    (hash : List ℕ → ℕ × ℕ) (num_dev fd : ℕ) (req_arr : ℕ → Slot) (rs : List Arrival)
    (nrs : List NetReq) (s : ℕ → System) (b left : List ℕ)
    → HasArrays req_arr
    → AllPacked nrs
    → Fit nrs
    → ((i : ℕ) → IsReached hash req_arr (length nrs) (s i))
    → read_sock_bulk max_netreq_buf netreq_size rs (send_request_bulk nrs) ≡ (received b, left)
    → (i : ℕ)
    → let hlr : ℕ → Handler = λ j. (s j).hlr in
      let ms =
        waiting (hlr i)
        ++ messages fd (routed hash num_dev i (take (length b / netreq_size) nrs)) in
      (serve_all hash
        (length ms)
        ((process_request hash num_dev fd rs (send_request_bulk nrs) hlr).1 i)).0
      ≡ answers ms
process_request-reached hash num_dev fd req_arr rs nrs s b left arrays packed fit reached e =
    process_request-answers hash num_dev fd rs nrs (λ j. (s j).hlr) b left packed fit
      (λ j. reached-IsReady arrays (reached j)) (λ j. reached-HasRoom (reached j))
      (λ j. reached-IsServable (reached j)) e
