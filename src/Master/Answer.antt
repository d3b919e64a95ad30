-- ===== src/Master/Answer.antt =====
-- A bulk of requests through src/master.c and the loop of src/handler.c: the acknowledgements that the
-- client gets for it.
use mathlib.Core.Path.{subst}
use udepot_hopscotch.Base.{
  ℕ, suc, ◌+◌, ◌/◌, ◌≤◌, ◌<◌, ◌≡◌, refl, ◌∙◌, sym, ap, true, some, List, [], ◌∷◌, ◌++◌, arith,
  length, length-append, take, update,
}
use udepot_hopscotch.Handler.{
  Handler, NetReq, Slot, Ack, qsize, make_request_from_netreq, forward_req_to_hlr,
}
use udepot_hopscotch.Handler.Flow.{
  tally, tally-append, one, tally-one, zero_at, make_tally, forward_tally,
}
use udepot_hopscotch.Handler.Serve.{serve_all, ack_of, acks_of, NoNull, serve_all_lem}
use udepot_hopscotch.Wire.{netreq_size, send_request_bulk, Arrival, received, read_sock_bulk}
use udepot_hopscotch.Wire.Codec.{AllPacked}
use udepot_hopscotch.Wire.Receive.{read_sock_bulk-requests}
use udepot_hopscotch.Master.{max_netreq_buf, hlr_idx, process_requests, process_request}
use udepot_hopscotch.Master.Route.{Message, asked_all, waiting, messages, IsReady}
use udepot_hopscotch.Master.Total.{HasRoom, Fit, routed, HasRoom-le, room_step, update_all}
use udepot_hopscotch.Master.Bulk.{length-take_le, process_request_lem}

-- No request is to be retried, and the pool has room for the ones that wait.
pub record IsServable (hlr : Handler) : Type 0 where
  pub no_retry : hlr.retry_q ≡ []
  pub live : tally zero_at hlr.req_pool + tally zero_at hlr.req_q ≡ 0
  pub room : length hlr.req_pool + length hlr.req_q ≤ qsize

IsServable-step :
    (hlr : Handler) (nr : NetReq) (fd p : ℕ) (h h' : Handler)
    → HasRoom 1 hlr
    → make_request_from_netreq hlr nr fd ≡ some (p, h)
    → forward_req_to_hlr h p ≡ some (true, h')
    → IsServable hlr
    → IsServable h'
unfolding tally
IsServable-step hlr nr fd p h h' v e e' s =
    let (sums, lock, req_q, retry_q) = make_tally hlr nr fd p h e in
    let fits : length h.req_q < qsize =
      omega (arith, v.queue, ap (λ (x : List ℕ). length x) req_q) in
    let (l, g, same, is) = forward_tally h p true h' fits e' in
    let small : IsServable (record h { flying = l; req_q = h.req_q ++ p ∷ [] }) = record {
      no_retry = retry_q ∙ s.no_retry;
      live = omega (
        arith,
        s.live,
        sums zero_at,
        ap (tally zero_at) req_q,
        tally-append zero_at h.req_q (p ∷ []),
      );
      room = omega (
        arith,
        s.room,
        sums one,
        tally-one hlr.req_pool,
        tally-one h.req_pool,
        ap (λ (x : List ℕ). length x) req_q,
        length-append h.req_q (p ∷ []),
      );
    } in
    subst IsServable (sym is) small

-- The loop of `__process_request` keeps it.
pub process_requests-IsServable :
    (hash : List ℕ → ℕ × ℕ) (num_dev fd : ℕ) (nrs : List NetReq) (hlr : ℕ → Handler)
    → ((i : ℕ) → HasRoom (length nrs) (hlr i))
    → ((i : ℕ) → IsServable (hlr i))
    → (i : ℕ) → IsServable ((process_requests hash num_dev fd nrs hlr).1 i)
unfolding process_requests
process_requests-IsServable hash num_dev fd [] hlr room s = s
process_requests-IsServable hash num_dev fd (nr ∷ nrs) hlr room s =
    let k = hlr_idx hash num_dev nr in
    let (p, h, h', e, e', room') = room_step (length nrs) (hlr k) nr fd (room k) in
    let s' =
      IsServable-step (hlr k) nr fd p h h'
        (HasRoom-le 1 (suc (length nrs)) (hlr k) (omega arith) (room k)) e e' (s k) in
    let fewer_all =
      λ (i : ℕ). HasRoom-le (length nrs) (suc (length nrs)) (hlr i) (omega arith) (room i) in
    rw (process_requests, e, e')
      (process_requests-IsServable hash num_dev fd nrs (update hlr k h')
        (update_all (HasRoom (length nrs)) hlr k h' fewer_all room')
        (update_all IsServable hlr k h' s s'))

-- The acknowledgements of messages in a row.
abbrev pub answers : List Message → List Ack
answers [] = []
answers (m ∷ ms) = record { sock = m.sock; seq_num = m.seq_num; type = m.type } ∷ answers ms

acks_of-answers : (req : ℕ → Slot) (ps : List ℕ) → acks_of req ps ≡ answers (asked_all req ps)
acks_of-answers req [] = refl
acks_of-answers req (p ∷ ps) = ap (λ l. ack_of (req p) ∷ l) (acks_of-answers req ps)

length-asked_all : (req : ℕ → Slot) (ps : List ℕ) → length (asked_all req ps) ≡ length ps
length-asked_all req [] = refl
length-asked_all req (p ∷ ps) = ap suc (length-asked_all req ps)

tally-NoNull : (ps : List ℕ) → tally zero_at ps ≡ 0 → NoNull ps
unfolding tally
tally-NoNull [] e = tt
tally-NoNull (p ∷ ps) e = (ground arith, tally-NoNull ps (omega arith))

-- A handler that serves all that waits.
pub serve_waiting :
    (hash : List ℕ → ℕ × ℕ) (hlr : Handler) (ms : List Message)
    → IsServable hlr
    → waiting hlr ≡ ms
    → (serve_all hash (length ms) hlr).0 ≡ answers ms
serve_waiting hash hlr ms s e =
    let live = tally-NoNull hlr.req_q (omega (arith, s.live)) in
    let all = serve_all_lem hash hlr.req_q hlr refl s.no_retry live s.room in
    let rounds = sym (length-asked_all hlr.req hlr.req_q) ∙ ap (λ (l : List Message). length l) e in
    subst (λ n. (serve_all hash n hlr).0 ≡ answers ms) rounds
      (all.0 ∙ acks_of-answers hlr.req hlr.req_q ∙ ap answers e)

-- Of the requests that a client writes in bulk, those that a call of `__process_request` reads are
-- acknowledged: each handler, in as many rounds as messages wait with it, sends an acknowledgement for each message that
-- waited with it before and then for each of the bulk that the hash of the key sends to it, once each, in
-- their order and to the socket that the message came from. The handlers have room for the bulk and
-- nothing to retry.
pub process_request-answers :
    (hash : List ℕ → ℕ × ℕ) (num_dev fd : ℕ) (rs : List Arrival) (nrs : List NetReq)
    (hlr : ℕ → Handler) (b left : List ℕ)
    → AllPacked nrs
    → Fit nrs
    → ((i : ℕ) → IsReady (hlr i))
    → ((i : ℕ) → HasRoom (length nrs) (hlr i))
    → ((i : ℕ) → IsServable (hlr i))
    → read_sock_bulk max_netreq_buf netreq_size rs (send_request_bulk nrs) ≡ (received b, left)
    → (i : ℕ)
    → let ms =
        waiting (hlr i)
        ++ messages fd (routed hash num_dev i (take (length b / netreq_size) nrs)) in
      (serve_all hash
        (length ms)
        ((process_request hash num_dev fd rs (send_request_bulk nrs) hlr).1 i)).0
      ≡ answers ms
unfolding process_request
process_request-answers hash num_dev fd rs nrs hlr b left packed fit ready room s e i =
    let n = length b / netreq_size in
    let (reqs, rest, few) = read_sock_bulk-requests max_netreq_buf rs nrs b left packed e in
    let enough = λ (j : ℕ).
      HasRoom-le (length (take n nrs)) (length nrs) (hlr j) (length-take_le n nrs) (room j) in
    let after = process_requests-IsServable hash num_dev fd (take n nrs) hlr enough s i in
    let (ok, queues, on) =
      process_request_lem hash num_dev fd rs nrs hlr b left packed fit ready room e in
    serve_waiting hash ((process_request hash num_dev fd rs (send_request_bulk nrs) hlr).1 i) _
      (rw (process_request, e, reqs) after) (queues i)
