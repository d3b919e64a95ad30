-- ===== src/Handler/Flow/Progress.antt =====
-- Why no operation on the queues of a handler of src/handler.c fails.
use udepot_hopscotch.Base.{
  ℕ, ◌<◌, ◌≡◌, ◌≢◌, ◌∙◌, ap, ◌⊎◌, inl, inr, Bool, true, Option, none, some, List, arith, length,
  ◌==◌, Bool-cases, Option-cases, ==_iff,
}
use udepot_hopscotch.Queue.Spec.{dequeue}
use udepot_hopscotch.Handler.{
  Handler, NetReq, Slot, make_request_from_netreq, forward_req_to_hlr, retry_req_to_hlr,
}
use udepot_hopscotch.Handler.Flow.{
  tally, tally-one, one, System, Reach, IsFlow, size_all, no_null, zero_at, enqueue_room,
  dequeue_none, forward_tally,
}
use udepot_hopscotch.Handler.Flow.Invariant.{short, idle, handler_init-IsFlow}

-- A pool with a request in it, none of them null, gives one.
some_ne_none : {A : Type 0} (a : A) → ◌≢◌ {A = Option A} (some a) none
some_ne_none a e = cc

pub makes_one :
    (hlr : Handler) (nr : NetReq) (sock : ℕ)
    → 0 < length hlr.req_pool
    → tally zero_at hlr.req_pool ≡ 0
    → make_request_from_netreq hlr nr sock ≢ none
unfolding make_request_from_netreq
makes_one hlr nr sock some_left clean e = elim (Bool-cases ((dequeue hlr.req_pool).0 == 0)) [
  | inl z ↦
      let empty = dequeue_none hlr.req_pool clean ((==_iff _ _).0 z) in
      omega (arith, ap (λ (l : List ℕ). length l) empty)
  | inr nz ↦ some_ne_none _ (rw (make_request_from_netreq, nz) at e)
]

makes :
    (s : System)
    → IsFlow s
    → (nr : NetReq) (sock : ℕ) → make_request_from_netreq s.hlr nr sock ≢ none
makes s v nr sock =
    makes_one s.hlr nr sock
      (omega (
        arith,
        v.conserved one,
        size_all,
        v.bounded,
        v.one_made,
        tally-one s.made,
        tally-one (s.hlr).req_pool,
      ))
      (omega (arith, v.conserved zero_at, no_null))

forwards :
    (s : System)
    → IsFlow s
    → (p : ℕ)
    → (forward_req_to_hlr s.hlr p ≡ none)
      ⊎ ((h : Handler) × (forward_req_to_hlr s.hlr p ≡ some (true, h)))
forwards s v p = elim (Option-cases (forward_req_to_hlr s.hlr p)) [
  | inl e ↦ inl e
  | inr ((b, h), e) ↦
      let (l, g, yes_queued, is) = forward_tally s.hlr p b h (omega (arith, (short s v).0)) e in
      inr (h, e ∙ ap (λ (c : Bool). some (c, h)) yes_queued)
]

retries : (s : System) → IsFlow s → (p : ℕ) → (retry_req_to_hlr s.hlr p).0 ≡ true
unfolding retry_req_to_hlr
retries s v p =
    ap (λ (r : Bool × List ℕ). r.0) (enqueue_room p (s.hlr).retry_q (omega (arith, (short s v).1)))

-- In any run of the threads of a handler from `handler_init` no operation fails: there is a request to be
-- made, one that is forwarded is queued as soon as the lock lets it through, and one that is put back is
-- queued.
pub handler_never_fails :
    (hash : List ℕ → ℕ × ℕ) (req_arr : ℕ → Slot) (s : System) (nr : NetReq) (sock p : ℕ)
    → Reach hash (idle req_arr) s
    → (make_request_from_netreq s.hlr nr sock ≢ none)
      × ((forward_req_to_hlr s.hlr p ≡ none)
          ⊎ ((h : Handler) × (forward_req_to_hlr s.hlr p ≡ some (true, h))))
      × ((retry_req_to_hlr s.hlr p).0 ≡ true)
handler_never_fails hash req_arr s nr sock p r =
    let v = handler_init-IsFlow hash req_arr s r in
    (makes s v nr sock, forwards s v p, retries s v p)
