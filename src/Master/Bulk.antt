-- ===== src/Master/Bulk.antt =====
-- A bulk of requests from the client's `send_request_bulk` through `__process_request` of src/master.c
-- into the queues of the handlers.
use udepot_hopscotch.Base.{
  ℕ, zero, suc, ◌/◌, ◌≤◌, ◌≡◌, ◌∙◌, ap, List, [], ◌∷◌, ◌++◌, arith, length, take, drop,
}
use udepot_hopscotch.Handler.{Handler, NetReq}
use udepot_hopscotch.Wire.{netreq_size, send_request_bulk, Arrival, received, read_sock_bulk}
use udepot_hopscotch.Wire.Codec.{AllPacked}
use udepot_hopscotch.Wire.Receive.{read_sock_bulk-requests}
use udepot_hopscotch.Master.{ended, handled, max_netreq_buf, process_request}
use udepot_hopscotch.Master.Route.{waiting, messages, IsReady}
use udepot_hopscotch.Master.Total.{HasRoom, Fit, routed, HasRoom-le, process_requests-routed}

pub Fit-take : (n : ℕ) (nrs : List NetReq) → Fit nrs → Fit (take n nrs)
Fit-take zero nrs v = tt
Fit-take (suc n) [] v = tt
Fit-take (suc n) (nr ∷ nrs) (short, key, v) = (short, key, Fit-take n nrs v)

pub length-take_le : (n : ℕ) (nrs : List NetReq) → length (take n nrs) ≤ length nrs
length-take_le zero nrs = omega arith
length-take_le (suc n) [] = omega arith
length-take_le (suc n) (nr ∷ nrs) = omega (arith, length-take_le n nrs)

-- Of the requests that a client writes in bulk, a call of `__process_request` that reads `n` of them,
-- where the handlers have room for all, hands on the first `n`: it ends with 0, the queue of each handler
-- goes on with those of the `n` that the hash of the key sends to it, in their order; and the socket
-- goes on with the bytes of the others.
pub process_request_lem :
    (hash : List ℕ → ℕ × ℕ) (num_dev fd : ℕ) (rs : List Arrival) (nrs : List NetReq)
    (hlr : ℕ → Handler) (b left : List ℕ)
    → AllPacked nrs
    → Fit nrs
    → ((i : ℕ) → IsReady (hlr i))
    → ((i : ℕ) → HasRoom (length nrs) (hlr i))
    → read_sock_bulk max_netreq_buf netreq_size rs (send_request_bulk nrs) ≡ (received b, left)
    → let n = length b / netreq_size in
      let r = process_request hash num_dev fd rs (send_request_bulk nrs) hlr in
      (r.0 ≡ ended handled)
      × ((i : ℕ)
          → waiting (r.1 i) ≡ waiting (hlr i) ++ messages fd (routed hash num_dev i (take n nrs)))
      × (r.2 ≡ send_request_bulk (drop n nrs))
unfolding process_request
process_request_lem hash num_dev fd rs nrs hlr b left packed fit ready room e =
    let n = length b / netreq_size in
    let (reqs, rest, few) = read_sock_bulk-requests max_netreq_buf rs nrs b left packed e in
    let enough = λ (i : ℕ).
      HasRoom-le (length (take n nrs)) (length nrs) (hlr i) (length-take_le n nrs) (room i) in
    let (ok, queues) =
      process_requests-routed hash num_dev fd (take n nrs) hlr ready enough (Fit-take n nrs fit) in
    rw (process_request, e, reqs) (ap ended ok, queues, ap (λ x. x.1) e ∙ rest)
