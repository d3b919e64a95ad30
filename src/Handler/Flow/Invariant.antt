-- ===== src/Handler/Flow/Invariant.antt =====
-- Every run of the threads of src/handler.c keeps each request in one place and the count of the lock.
use udepot_hopscotch.Base.{
  ℕ, ◌+◌, ◌-◌, ◌%◌, ◌^◌, ◌≤◌, ◌<◌, ◌≡◌, ◌≢◌, refl, ◌∙◌, ap, Bool, false, some, List, [], ◌∷◌, ◌++◌,
  arith, length, ==→ne,
}
use udepot_hopscotch.CondLock.{ClLock, cl_init, cl_release}
use udepot_hopscotch.CondLock.Safety.{grap_cases}
use udepot_hopscotch.Handler.{
  Handler, NetReq, Slot, qsize, qdepth, handler_init, make_request_from_netreq, forward_req_to_hlr,
  retry_req_to_hlr, get_next_request, net_end_req,
}
use udepot_hopscotch.Handler.Flow.{
  tally, tally-append, tally-one, one, System, Step, make, forward, take, end, retry, Reach, start,
  next, all_requests, IsFlow, size_all, no_null, zero_at, enqueue_room, make_tally, get_tally,
  forward_tally,
}

-- Where each request is once, a queue is far from full.
pub short :
    (s : System)
    → IsFlow s
    → (length (s.hlr).req_q ≤ qdepth) × (length (s.hlr).retry_q ≤ qdepth) × (length s.hand ≤ qdepth)
short s v = (
  omega (arith, v.bounded, tally-one (s.hlr).req_q),
  omega (arith, v.bounded, tally-one (s.hlr).retry_q),
  omega (arith, v.bounded, tally-one s.hand),
)

make-IsFlow :
    (s : System) (nr : NetReq) (sock p : ℕ) (h : Handler)
    → s.made ≡ []
    → make_request_from_netreq s.hlr nr sock ≡ some (p, h)
    → IsFlow s
    → IsFlow (record { hlr = h; made = p ∷ []; hand = s.hand })
unfolding tally
make-IsFlow s nr sock p h none_made e v =
    let m = make_tally s.hlr nr sock p h e in
    record {
      conserved = λ f.
          omega (
            arith,
            v.conserved f,
            m.0 f,
            ap (tally f) m.2,
            ap (tally f) m.3,
            ap (tally f) none_made,
          );
      one_made = omega arith;
      counts = ap (λ (l : ClLock). l.zero_lock) m.1 ∙ v.counts;
      limit = ap (λ (l : ClLock). l.cnt) m.1 ∙ v.limit;
      now =
          omega
            (arith, ap (λ (l : ClLock). l.now) m.1, v.now, ap (tally one) m.2, ap (tally one) m.3);
      bounded = omega (arith, v.bounded, ap (tally one) m.2, ap (tally one) m.3);
    }

forward-IsFlow :
    (s : System) (p : ℕ) (b : Bool) (h : Handler)
    → s.made ≡ p ∷ []
    → forward_req_to_hlr s.hlr p ≡ some (b, h)
    → IsFlow s
    → IsFlow (record { hlr = h; made = []; hand = s.hand })
unfolding tally
forward-IsFlow s p b h one_made e v =
    let (l, grapped, b_true, is) = forward_tally s.hlr p b h (omega (arith, (short s v).0)) e in
    let c = grap_cases (s.hlr).flying l v.counts grapped in
    let free : ((s.hlr).flying).now ≢ ((s.hlr).flying).cnt = ==→ne _ _ c.3 in
    let pool = ap (λ (x : Handler). x.req_pool) is in
    let queued = ap (λ (x : Handler). x.req_q) is in
    let retried = ap (λ (x : Handler). x.retry_q) is in
    let lock = ap (λ (x : Handler). x.flying) is in
    let moved = λ (f : ℕ → ℕ). ap (tally f) queued ∙ tally-append f (s.hlr).req_q (p ∷ []) in
    record {
      conserved = λ f. omega (
        arith,
        v.conserved f,
        ap (tally f) pool,
        moved f,
        ap (tally f) retried,
        ap (tally f) one_made,
      );
      one_made = omega arith;
      counts = ap (λ (x : ClLock). x.zero_lock) lock ∙ c.0;
      limit = ap (λ (x : ClLock). x.cnt) lock ∙ c.1 ∙ v.limit;
      now = omega (
        arith,
        ap (λ (x : ClLock). x.now) lock,
        c.2,
        v.now,
        v.bounded,
        moved one,
        ap (tally one) retried,
      );
      bounded = omega (arith, free, v.now, v.limit, v.bounded, moved one, ap (tally one) retried);
    }

take-IsFlow :
    (hash : List ℕ → ℕ × ℕ) (s : System)
    → (get_next_request hash s.hlr).0 ≢ 0
    → IsFlow s
    → IsFlow (record {
      hlr = (get_next_request hash s.hlr).1;
      made = s.made;
      hand = (get_next_request hash s.hlr).0 ∷ s.hand;
    })
unfolding tally
take-IsFlow hash s ne v =
    let clean : tally zero_at (s.hlr).retry_q ≡ 0 = omega (arith, v.conserved zero_at, no_null) in
    let g = λ (f : ℕ → ℕ). get_tally hash f s.hlr clean ne in
    record {
      conserved = λ f. omega (arith, v.conserved f, (g f).0, ap (tally f) (g f).1);
      one_made = v.one_made;
      counts = ap (λ (l : ClLock). l.zero_lock) (g one).2 ∙ v.counts;
      limit = ap (λ (l : ClLock). l.cnt) (g one).2 ∙ v.limit;
      now = omega (arith, ap (λ (l : ClLock). l.now) (g one).2, v.now, (g one).0);
      bounded = omega (arith, v.bounded, (g one).0);
    }

-- A request in the hand of the handler, and the others.
hand_tally :
    (f : ℕ → ℕ) (p : ℕ) (xs ys hand : List ℕ)
    → hand ≡ xs ++ p ∷ ys
    → tally f hand ≡ f p + tally f (xs ++ ys)
unfolding tally
hand_tally f p xs ys hand e =
    omega (arith, ap (tally f) e, tally-append f xs (p ∷ ys), tally-append f xs ys)

-- The pool has room for a request that is elsewhere.
pool_room : (s : System) → IsFlow s → 0 < tally one s.hand → length (s.hlr).req_pool < qsize
pool_room s v some_hand = omega (arith, v.conserved one, size_all, tally-one (s.hlr).req_pool)

released :
    (l : ClLock)
    → l.zero_lock ≡ false
    → (((cl_release l).0).zero_lock ≡ false)
      × (((cl_release l).0).cnt ≡ l.cnt)
      × (((cl_release l).0).now ≡ (l.now + 2 ^ 32 - 1) % 2 ^ 32)
unfolding cl_release
released l z = rw (cl_release, z) (refl, refl, refl)

end-IsFlow :
    (s : System) (p : ℕ) (xs ys : List ℕ)
    → s.hand ≡ xs ++ p ∷ ys
    → IsFlow s
    → IsFlow (record { hlr = (net_end_req s.hlr p).1; made = s.made; hand = xs ++ ys })
unfolding net_end_req cl_release tally
end-IsFlow s p xs ys e v =
    let h = λ (f : ℕ → ℕ). hand_tally f p xs ys s.hand e in
    let freed =
      ap (λ (r : Bool × List ℕ). r.1)
        (enqueue_room p (s.hlr).req_pool (pool_room s v (omega (arith, h one)))) in
    let pool = λ (f : ℕ → ℕ). ap (tally f) freed ∙ tally-append f (s.hlr).req_pool (p ∷ []) in
    let lock = released (s.hlr).flying v.counts in
    record {
      conserved = λ f. omega (arith, v.conserved f, h f, pool f);
      one_made = v.one_made;
      counts = lock.0;
      limit = lock.1 ∙ v.limit;
      now = omega (arith, lock.2, v.now, v.bounded, h one);
      bounded = omega (arith, v.bounded, h one);
    }

retry-IsFlow :
    (s : System) (p : ℕ) (xs ys : List ℕ)
    → s.hand ≡ xs ++ p ∷ ys
    → IsFlow s
    → IsFlow (record { hlr = (retry_req_to_hlr s.hlr p).1; made = s.made; hand = xs ++ ys })
unfolding retry_req_to_hlr tally
retry-IsFlow s p xs ys e v =
    let h = λ (f : ℕ → ℕ). hand_tally f p xs ys s.hand e in
    let queued =
      ap (λ (r : Bool × List ℕ). r.1)
        (enqueue_room p (s.hlr).retry_q (omega (arith, (short s v).1))) in
    let back = λ (f : ℕ → ℕ). ap (tally f) queued ∙ tally-append f (s.hlr).retry_q (p ∷ []) in
    record {
      conserved = λ f. omega (arith, v.conserved f, h f, back f);
      one_made = v.one_made;
      counts = v.counts;
      limit = v.limit;
      now = omega (arith, v.now, h one, back one);
      bounded = omega (arith, v.bounded, h one, back one);
    }

Step-IsFlow : (hash : List ℕ → ℕ × ℕ) {s t : System} → Step hash s t → IsFlow s → IsFlow t
Step-IsFlow hash (make s nr sock p h m e) v = make-IsFlow s nr sock p h m e v
Step-IsFlow hash (forward s p b h m e) v = forward-IsFlow s p b h m e v
Step-IsFlow hash (take s ne) v = take-IsFlow hash s ne v
Step-IsFlow hash (end s p xs ys e) v = end-IsFlow s p xs ys e v
Step-IsFlow hash (retry s p xs ys e) v = retry-IsFlow s p xs ys e v

Reach-IsFlow : (hash : List ℕ → ℕ × ℕ) {s t : System} → Reach hash s t → IsFlow s → IsFlow t
Reach-IsFlow hash (start s) v = v
Reach-IsFlow hash (next s t u r x) v = Step-IsFlow hash x (Reach-IsFlow hash r v)

-- The handler of `handler_init`, with no request on its way.
abbrev pub idle : (ℕ → Slot) → System
idle req_arr = record { hlr = handler_init req_arr; made = []; hand = [] }

nothing_else : (n : ℕ) → n + 0 + (0 + 0 + 0) ≡ n
nothing_else n = omega arith

idle-IsFlow : (req_arr : ℕ → Slot) → IsFlow (idle req_arr)
unfolding handler_init cl_init tally
idle-IsFlow req_arr = record {
  conserved = λ f. nothing_else (tally f all_requests);
  one_made = omega arith;
  counts = refl;
  limit = refl;
  now = refl;
  bounded = omega arith;
}

-- In any run of its threads from `handler_init`, each request of the handler is in the pool, in a
-- queue, in the hand of a thread, once and in one place only; and at most 256 are in flight, which is
-- what the lock counts.
pub handler_init-IsFlow :
    (hash : List ℕ → ℕ × ℕ) (req_arr : ℕ → Slot) (s : System)
    → Reach hash (idle req_arr) s
    → IsFlow s
handler_init-IsFlow hash req_arr s r = Reach-IsFlow hash r (idle-IsFlow req_arr)
