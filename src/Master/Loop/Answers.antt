-- ===== src/Master/Loop/Answers.antt =====
-- Bulks of several clients through the loop of `master_thread` of src/master.c, one after the other.
use mathlib.Core.Path.{subst}
use mathlib.Core.List.{append_assoc, append-nil}
use udepot_hopscotch.Base.{
  ℕ, suc, ◌+◌, ◌/◌, ◌≡◌, refl, ◌∙◌, sym, ap, List, [], ◌∷◌, ◌++◌, arith, length, take, update,
}
use udepot_hopscotch.Handler.{Handler, NetReq, Slot}
use udepot_hopscotch.Handler.Flow.{System}
use udepot_hopscotch.Handler.Flow.Arrays.{HasArrays}
use udepot_hopscotch.Master.Reached.{
  IsReached, reached-IsReady, reached-HasRoom, reached-IsServable,
}
use udepot_hopscotch.Handler.Serve.{serve_all}
use udepot_hopscotch.Wire.{netreq_size, Arrival, received, send_request_bulk, read_sock_bulk}
use udepot_hopscotch.Wire.Codec.{AllPacked}
use udepot_hopscotch.Wire.Receive.{read_sock_bulk-requests}
use udepot_hopscotch.Master.{max_netreq_buf, hlr_idx, process_requests, process_request}
use udepot_hopscotch.Master.Route.{Message, waiting, messages, IsReady, made_queued}
use udepot_hopscotch.Master.Total.{HasRoom, Fit, routed, HasRoom-le, room_step, update_all}
use udepot_hopscotch.Master.Bulk.{length-take_le, Fit-take, process_request_lem}
use udepot_hopscotch.Master.Answer.{IsServable, answers, serve_waiting, process_requests-IsServable}
use udepot_hopscotch.Master.Loop.{
  Front, Event, readable, ThreadEnd, polling, after_request, process_event, after, process_events,
}

-- A handler that is ready, with nothing to retry and room for `n` requests.
pub record IsOpen (n : ℕ) (hlr : Handler) : Type 0 where
  pub ready : IsReady hlr
  pub room : HasRoom n hlr
  pub servable : IsServable hlr

-- A bulk that a client writes, what arrives of it, and what one call of `read_sock_bulk` gives of it.
pub record Bulk : Type 0 where
  pub fd : ℕ
  pub rs : List Arrival
  pub nrs : List NetReq
  pub read : List ℕ
  pub left : List ℕ

pub record IsBulk (b : Bulk) : Type 0 where
  pub packed : AllPacked b.nrs
  pub fit : Fit b.nrs
  pub arrives :
      read_sock_bulk max_netreq_buf netreq_size b.rs (send_request_bulk b.nrs)
      ≡ (received b.read, b.left)

-- The requests of it that were read.
abbrev pub read_of : Bulk → List NetReq
read_of b = take (length b.read / netreq_size) b.nrs

abbrev pub AllBulks : List Bulk → Type 0
AllBulks [] = Unit
AllBulks (b ∷ bs) = IsBulk b × AllBulks bs

abbrev pub events_of : List Bulk → List Event
events_of [] = []
events_of (b ∷ bs) = readable b.fd b.rs (send_request_bulk b.nrs) ∷ events_of bs

abbrev pub total : List Bulk → ℕ
total [] = 0
total (b ∷ bs) = length b.nrs + total bs

module _ (hash : List ℕ → ℕ × ℕ) (num_dev : ℕ) where
  -- The messages of the bulks that the hash sends to the handler `i`, in the order of their arrival.
  abbrev pub sent_to : ℕ → List Bulk → List Message
  sent_to i [] = []
  sent_to i (b ∷ bs) = messages b.fd (routed hash num_dev i (read_of b)) ++ sent_to i bs

  -- The loop over a buffer leaves the handlers ready, with the room that was left.
  process_requests-kept :
      (fd m : ℕ) (nrs : List NetReq) (hlr : ℕ → Handler)
      → ((i : ℕ) → IsReady (hlr i))
      → ((i : ℕ) → HasRoom (length nrs + m) (hlr i))
      → Fit nrs
      → (i : ℕ)
      → IsReady ((process_requests hash num_dev fd nrs hlr).1 i)
        × HasRoom m ((process_requests hash num_dev fd nrs hlr).1 i)
  unfolding process_requests
  process_requests-kept fd m [] hlr ready room fit i =
      (ready i, HasRoom-le m (0 + m) (hlr i) (omega arith) (room i))
  process_requests-kept fd m (nr ∷ nrs) hlr ready room (short, key, fit) i =
      let k = hlr_idx hash num_dev nr in
      let fewer = λ (j : ℕ).
        HasRoom-le (suc (length nrs + m)) (suc (length nrs) + m) (hlr j) (omega arith) (room j) in
      let (p, h, h', e, e', room') = room_step (length nrs + m) (hlr k) nr fd (fewer k) in
      let (ready', moved) = made_queued (hlr k) nr fd p h h' (ready k) short key e e' in
      let fewer_all = λ (j : ℕ).
        HasRoom-le (length nrs + m) (suc (length nrs) + m) (hlr j) (omega arith) (room j) in
      rw (process_requests, e, e')
        (process_requests-kept fd m nrs (update hlr k h') (update_all IsReady hlr k h' ready ready')
          (update_all (HasRoom (length nrs + m)) hlr k h' fewer_all room') fit i)

  module _ (b : Bulk) (v : IsBulk b) (m : ℕ) (mas : Front)
      (open_all : (i : ℕ) → IsOpen (length b.nrs + m) (mas.hlr i)) where
    abbrev after_bulk : ThreadEnd × Front
    after_bulk = process_event hash num_dev (readable b.fd b.rs (send_request_bulk b.nrs)) mas

    room_of : (i : ℕ) → HasRoom (length (read_of b) + m) (mas.hlr i)
    room_of i =
        HasRoom-le (length (read_of b) + m) (length b.nrs + m) (mas.hlr i)
          (omega (arith, length-take_le (length b.read / netreq_size) b.nrs)) (open_all i).room

    -- The handlers after the bulk.
    abbrev hlr' : ℕ → Handler
    hlr' = (process_requests hash num_dev b.fd (read_of b) mas.hlr).1

    same_handlers :
        (process_request hash num_dev b.fd b.rs (send_request_bulk b.nrs) mas.hlr).1 ≡ hlr'
    unfolding process_request
    same_handlers =
        let reqs =
          (read_sock_bulk-requests max_netreq_buf b.rs b.nrs b.read b.left v.packed v.arrives).0 in
        rw (process_request, v.arrives, reqs) refl

    stays-IsOpen : (i : ℕ) → IsOpen m (hlr' i)
    stays-IsOpen i =
        let kept =
          process_requests-kept b.fd m (read_of b) mas.hlr (λ j. (open_all j).ready) room_of
            (Fit-take (length b.read / netreq_size) b.nrs v.fit) i in
        record {
          ready = kept.0;
          room = kept.1;
          servable =
              process_requests-IsServable hash num_dev b.fd (read_of b) mas.hlr
                (λ j.
                  HasRoom-le (length (read_of b)) (length (read_of b) + m) (mas.hlr j) (omega arith)
                    (room_of j))
                (λ j. (open_all j).servable) i;
        }

    bulk_lem :
        (after_bulk ≡ (polling, record mas { hlr = hlr' }))
        × ((i : ℕ)
            → waiting (hlr' i)
              ≡ waiting (mas.hlr i) ++ messages b.fd (routed hash num_dev i (read_of b)))
    unfolding process_event after_request
    bulk_lem =
        let (ok, queues, on) =
          process_request_lem hash num_dev b.fd b.rs b.nrs mas.hlr b.read b.left v.packed v.fit
            (λ i. (open_all i).ready)
            (λ i.
              HasRoom-le (length b.nrs) (length b.nrs + m) (mas.hlr i) (omega arith)
                (open_all i).room)
            v.arrives in
        (
          ap (after_request b.fd mas) (λ j. (
            ok j,
            same_handlers j,
            (process_request hash num_dev b.fd b.rs (send_request_bulk b.nrs) mas.hlr).2,
          )),
          λ i. sym (ap (λ (h : ℕ → Handler). waiting (h i)) same_handlers) ∙ queues i,
        )

  -- What the loop leaves: it goes on, and the messages wait in their order.
  record Queued (bs : List Bulk) (mas : Front) (r : ThreadEnd × Front) : Type 0 where
    on : r.0 ≡ polling
    queues : (i : ℕ) → waiting ((r.1).hlr i) ≡ waiting (mas.hlr i) ++ sent_to i bs
    servable : (i : ℕ) → IsServable ((r.1).hlr i)

  process_events-Queued :
      (bs : List Bulk) (mas : Front)
      → AllBulks bs
      → ((i : ℕ) → IsOpen (total bs) (mas.hlr i))
      → Queued bs mas (process_events hash num_dev (events_of bs) mas)
  unfolding process_events
  process_events-Queued [] mas v open_all = record {
    on = refl;
    queues = λ i. sym (append-nil (waiting (mas.hlr i)));
    servable = λ i. (open_all i).servable;
  }
  process_events-Queued (b ∷ bs) mas (v, vs) open_all =
      let (goes_on, moved) = bulk_lem b v (total bs) mas open_all in
      let mas' = record mas { hlr = hlr' b v (total bs) mas open_all } in
      let q = process_events-Queued bs mas' vs (stays-IsOpen b v (total bs) mas open_all) in
      subst (λ r. Queued (b ∷ bs) mas (after r (process_events hash num_dev (events_of bs))))
        (sym goes_on)
        (record {
          on = q.on;
          queues = λ i.
              q.queues i
              ∙ ap (λ l. l ++ sent_to i bs) (moved i)
              ∙ append_assoc (waiting (mas.hlr i))
                  (messages b.fd (routed hash num_dev i (read_of b))) (sent_to i bs);
          servable = q.servable;
        })

-- The bulks through handlers that are open, and the acknowledgements.
process_events-answers :
    (hash : List ℕ → ℕ × ℕ) (num_dev : ℕ) (bs : List Bulk) (mas : Front)
    → AllBulks bs
    → ((i : ℕ) → IsOpen (total bs) (mas.hlr i))
    → let r = process_events hash num_dev (events_of bs) mas in
      (r.0 ≡ polling)
      × ((i : ℕ)
          → let ms = waiting (mas.hlr i) ++ sent_to hash num_dev i bs in
            (serve_all hash (length ms) ((r.1).hlr i)).0 ≡ answers ms)
process_events-answers hash num_dev bs mas v open_all =
    let q = process_events-Queued hash num_dev bs mas v open_all in
    (
      q.on,
      λ i.
          serve_waiting hash (((process_events hash num_dev (events_of bs) mas).1).hlr i)
            (waiting (mas.hlr i) ++ sent_to hash num_dev i bs) (q.servable i) (q.queues i),
    )

-- Let several clients write bulks of requests whose keys have at most 32 bytes, and let every
-- handler be in a state that its threads reach from `handler_init`, with nothing to retry and
-- with room in its lock for all the bulks. The loop of `master_thread` then handles the events of
-- all of them and goes on, and each handler, in as many rounds as messages wait with it, sends an
-- acknowledgement for each message that waited before and then for each request that was read and
-- that the hash of the key sends to it, once each, in the order of the events and to the socket
-- that it came from.
pub process_events-reached :
    (hash : List ℕ → ℕ × ℕ) (num_dev : ℕ) (req_arr : ℕ → Slot) (bs : List Bulk) (s : ℕ → System)
    (clients : List ℕ)
    → HasArrays req_arr
    → AllBulks bs
    → ((i : ℕ) → IsReached hash req_arr (total bs) (s i))
    → let mas : Front = record { hlr = λ j. (s j).hlr; clients = clients } in
      let r = process_events hash num_dev (events_of bs) mas in
      (r.0 ≡ polling)
      × ((i : ℕ)
          → let ms = waiting (s i).hlr ++ sent_to hash num_dev i bs in
            (serve_all hash (length ms) ((r.1).hlr i)).0 ≡ answers ms)
process_events-reached hash num_dev req_arr bs s clients arrays v reached =
    process_events-answers hash num_dev bs (record { hlr = λ j. (s j).hlr; clients = clients }) v
      (λ i. record {
        ready = reached-IsReady arrays (reached i);
        room = reached-HasRoom (reached i);
        servable = reached-IsServable (reached i);
      })
