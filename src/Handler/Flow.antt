-- ===== src/Handler/Flow.antt =====
-- The requests of src/handler.c as a closed system: where each of them is in any run of the thread
-- that receives requests and the one that handles them, and why no queue of the handler overflows.
pub mod Invariant
pub mod Progress
pub mod Arrays
pub mod Once
use mathlib.Core.Path.{subst}
use mathlib.Core.Option.{some-injective}
use udepot_hopscotch.Base.{
  ℕ, zero, suc, ◌+◌, ◌-◌, ◌%◌, ◌^◌, ◌≤◌, ◌<◌, ◌≡◌, ◌≢◌, refl, ◌∙◌, sym, ap, ◌⊎◌, inl, inr, Bool,
  true, false, Option, none, some, List, [], ◌∷◌, ◌++◌, arith, length, length-append, ◌==◌,
  if◌then◌else◌, Bool-cases, Option-cases, ==→ne, ==_iff, update,
}
use udepot_hopscotch.CondLock.{ClLock, cl_init, cl_grap, cl_release, up}
use udepot_hopscotch.CondLock.Safety.{grap_cases}
use udepot_hopscotch.Queue.Spec.{enqueue, dequeue}
use udepot_hopscotch.Handler.{
  Handler, NetReq, Slot, qsize, qdepth, fill_pool, handler_init, make_request_from_netreq,
  forward_req_to_hlr, retry_req_to_hlr, get_next_request, net_end_req, serve,
}

-- A sum over the pointers of a list.
unfoldable pub tally : (ℕ → ℕ) → List ℕ → ℕ
tally f [] = 0
tally f (x ∷ xs) = f x + tally f xs

pub tally-append : (f : ℕ → ℕ) (xs ys : List ℕ) → tally f (xs ++ ys) ≡ tally f xs + tally f ys
unfolding tally
tally-append f [] ys = omega arith
tally-append f (x ∷ xs) ys = omega (arith, tally-append f xs ys)

abbrev pub one : ℕ → ℕ
one p = 1

pub tally-one : (xs : List ℕ) → tally one xs ≡ length xs
unfolding tally
tally-one [] = refl
tally-one (x ∷ xs) = omega (arith, tally-one xs)

-- `made` is a request between `make_request_from_netreq` and `forward_req_to_hlr`, and `hand` the ones
-- that were taken from a queue and not yet ended or retried.
pub record System : Type 0 where
  pub hlr : Handler
  pub made : List ℕ
  pub hand : List ℕ

-- The moves of the two threads. The handler may end a request that it took at once, as
-- `request_handler` does, or later, or put it back, as the callbacks of the indexes do. The release of the
-- lock and the return to the pool, one after the other in `net_end_req`, are one move.
pub data Step (hash : List ℕ → ℕ × ℕ) : System → System → Type 0 where
  make :
      (s : System) (nr : NetReq) (sock p : ℕ) (h : Handler)
      → s.made ≡ []
      → make_request_from_netreq s.hlr nr sock ≡ some (p, h)
      → Step hash s (record { hlr = h; made = p ∷ []; hand = s.hand })
  forward :
      (s : System) (p : ℕ) (b : Bool) (h : Handler)
      → s.made ≡ p ∷ []
      → forward_req_to_hlr s.hlr p ≡ some (b, h)
      → Step hash s (record { hlr = h; made = []; hand = s.hand })
  take :
      (s : System)
      → (get_next_request hash s.hlr).0 ≢ 0
      → Step hash s (record {
        hlr = (get_next_request hash s.hlr).1;
        made = s.made;
        hand = (get_next_request hash s.hlr).0 ∷ s.hand;
      })
  end :
      (s : System) (p : ℕ) (xs ys : List ℕ)
      → s.hand ≡ xs ++ p ∷ ys
      → Step hash s (record { hlr = (net_end_req s.hlr p).1; made = s.made; hand = xs ++ ys })
  retry :
      (s : System) (p : ℕ) (xs ys : List ℕ)
      → s.hand ≡ xs ++ p ∷ ys
      → Step hash s (record { hlr = (retry_req_to_hlr s.hlr p).1; made = s.made; hand = xs ++ ys })

pub data Reach (hash : List ℕ → ℕ × ℕ) : System → System → Type 0 where
  start : (s : System) → Reach hash s s
  next : (s t u : System) → Reach hash s t → Step hash t u → Reach hash s u

-- A sum over all the places that a request can be in, and over those that are in flight.
abbrev pub in_flight : (ℕ → ℕ) → System → ℕ
in_flight f s = tally f (s.hlr).req_q + tally f (s.hlr).retry_q + tally f s.hand

abbrev pub everywhere : (ℕ → ℕ) → System → ℕ
everywhere f s = tally f (s.hlr).req_pool + tally f s.made + in_flight f s

-- The requests of the pool of `handler_init`.
abbrev pub all_requests : List ℕ
all_requests = fill_pool qsize 1 []

-- Sums over the requests never change, so that each is in one place, once; the lock counts those in
-- flight; and there are at most as many as it admits.
pub record IsFlow (s : System) : Type 0 where
  pub conserved : (f : ℕ → ℕ) → everywhere f s ≡ tally f all_requests
  pub one_made : length s.made ≤ 1
  pub counts : ((s.hlr).flying).zero_lock ≡ false
  pub limit : ((s.hlr).flying).cnt ≡ qdepth
  pub now : ((s.hlr).flying).now ≡ in_flight one s
  pub bounded : in_flight one s ≤ qdepth

pub size_all : tally one all_requests ≡ 1024
unfolding fill_pool tally enqueue
size_all = refl

pub enqueue_room :
    (p : ℕ) (xs : List ℕ) → length xs < qsize → enqueue qsize p xs ≡ (true, xs ++ p ∷ [])
unfolding enqueue
enqueue_room p xs lt = let short : (length xs == qsize) ≡ false = ground arith in rw short

abbrev pub zero_at : ℕ → ℕ
zero_at p = if p == 0 then 1 else 0

pub no_null : tally zero_at all_requests ≡ 0
unfolding fill_pool tally enqueue
no_null = refl

dequeue_some :
    (f : ℕ → ℕ) (xs : List ℕ)
    → (dequeue xs).0 ≢ 0
    → tally f xs ≡ f (dequeue xs).0 + tally f (dequeue xs).1
unfolding dequeue tally
dequeue_some f [] ne = absurd (ne refl)
dequeue_some f (x ∷ xs) ne = refl

pub dequeue_none : (xs : List ℕ) → tally zero_at xs ≡ 0 → (dequeue xs).0 ≡ 0 → xs ≡ []
unfolding dequeue tally
dequeue_none [] none_zero e = refl
dequeue_none (x ∷ xs) none_zero e = absurd (ground arith)

-- What `make_request_from_netreq` moves.
pub make_tally :
    (hlr : Handler) (nr : NetReq) (sock p : ℕ) (h : Handler)
    → make_request_from_netreq hlr nr sock ≡ some (p, h)
    → ((f : ℕ → ℕ) → tally f hlr.req_pool ≡ f p + tally f h.req_pool)
      × (h.flying ≡ hlr.flying)
      × (h.req_q ≡ hlr.req_q)
      × (h.retry_q ≡ hlr.retry_q)
unfolding make_request_from_netreq
make_tally hlr nr sock p h e = elim (Bool-cases ((dequeue hlr.req_pool).0 == 0)) [
  | inl z ↦
      let bad : ◌≡◌ {A = Option (ℕ × Handler)} none (some (p, h)) =
        rw (make_request_from_netreq, z) at e in
      cc
  | inr nz ↦
      let both = some-injective _ _ (rw (make_request_from_netreq, nz) at e) in
      let at = ap (λ (r : ℕ × Handler). r.0) both in
      let is = ap (λ (r : ℕ × Handler). r.1) both in
      (
        λ f.
            dequeue_some f hlr.req_pool (==→ne _ _ nz)
            ∙ ap (λ k. f k + tally f (dequeue hlr.req_pool).1) at
            ∙ ap (λ (x : Handler). f p + tally f x.req_pool) is,
        ap (λ (x : Handler). x.flying) (sym is),
        ap (λ (x : Handler). x.req_q) (sym is),
        ap (λ (x : Handler). x.retry_q) (sym is),
      )
]

-- What `get_next_request` moves.
pub get_tally :
    (hash : List ℕ → ℕ × ℕ) (f : ℕ → ℕ) (hlr : Handler)
    → tally zero_at hlr.retry_q ≡ 0
    → (get_next_request hash hlr).0 ≢ 0
    → (tally f hlr.req_q + tally f hlr.retry_q
        ≡ f (get_next_request hash hlr).0
          + tally f ((get_next_request hash hlr).1).req_q
          + tally f ((get_next_request hash hlr).1).retry_q)
      × (((get_next_request hash hlr).1).req_pool ≡ hlr.req_pool)
      × (((get_next_request hash hlr).1).flying ≡ hlr.flying)
unfolding get_next_request
get_tally hash f hlr clean ne = elim (Bool-cases ((dequeue hlr.retry_q).0 == 0)) [
  | inl z ↦
      let empty = dequeue_none hlr.retry_q clean ((==_iff _ _).0 z) in
      let some_req : (dequeue hlr.req_q).0 ≢ 0 = rw (get_next_request, z) at ne in
      rw (get_next_request, z)
        (
          omega (
            arith,
            dequeue_some f hlr.req_q some_req,
            ap (tally f) empty,
            ap (λ xs. tally f (dequeue xs).1) empty,
          ),
          refl,
          refl,
        )
  | inr nz ↦
      rw (get_next_request, nz)
        (omega (arith, dequeue_some f hlr.retry_q (==→ne _ _ nz)), refl, refl)
]

pub forward_tally :
    (hlr : Handler) (p : ℕ) (b : Bool) (h : Handler)
    → length hlr.req_q < qsize
    → forward_req_to_hlr hlr p ≡ some (b, h)
    → (l : ClLock) × (cl_grap hlr.flying ≡ some l)
      × (b ≡ true)
      × (h ≡ record hlr { flying = l; req_q = hlr.req_q ++ p ∷ [] })
unfolding forward_req_to_hlr
forward_tally hlr p b h lt e = elim (Option-cases (cl_grap hlr.flying)) [
  | inl q ↦
      let bad : ◌≡◌ {A = Option (Bool × Handler)} none (some (b, h)) =
        rw (forward_req_to_hlr, q) at e in
      cc
  | inr (l, q) ↦
      let both = some-injective _ _ (rw (forward_req_to_hlr, q) at e) in
      let queued = enqueue_room p hlr.req_q lt in
      (
        l,
        q,
        ap (λ (r : Bool × Handler). r.0) (sym both) ∙ ap (λ (r : Bool × List ℕ). r.0) queued,
        ap (λ (r : Bool × Handler). r.1) (sym both)
            ∙ ap (λ (r : Bool × List ℕ). record hlr { flying = l; req_q = r.1 }) queued,
      )
]

enqueue-true :
    (p : ℕ) (xs : List ℕ) → (enqueue qsize p xs).0 ≡ true → (enqueue qsize p xs).1 ≡ xs ++ p ∷ []
unfolding enqueue
enqueue-true p xs e = elim (Bool-cases (length xs == qsize)) [
  | inl full ↦ let bad : false ≡ true = rw full at e in cc
  | inr room ↦ rw room
]

-- A request that was forwarded is the last one of the queue.
pub queued :
    (hlr : Handler) (p : ℕ) (h : Handler)
    → forward_req_to_hlr hlr p ≡ some (true, h)
    → (h.req_q ≡ hlr.req_q ++ p ∷ []) × (h.req ≡ hlr.req) × (h.req_pool ≡ hlr.req_pool)
unfolding forward_req_to_hlr
queued hlr p h e = elim (Option-cases (cl_grap hlr.flying)) [
  | inl q ↦
      let bad : ◌≡◌ {A = Option (Bool × Handler)} none (some (true, h)) =
        rw (forward_req_to_hlr, q) at e in
      cc
  | inr (l, q) ↦
      let both = some-injective _ _ (rw (forward_req_to_hlr, q) at e) in
      let is = ap (λ (r : Bool × Handler). r.1) both in
      (
        ap (λ (x : Handler). x.req_q) (sym is)
            ∙ enqueue-true p hlr.req_q (ap (λ (r : Bool × Handler). r.0) both),
        ap (λ (x : Handler). x.req) (sym is),
        ap (λ (x : Handler). x.req_pool) (sym is),
      )
]
