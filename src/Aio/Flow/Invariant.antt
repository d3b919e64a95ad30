-- ===== src/Aio/Flow/Invariant.antt =====
-- Every run of the threads of src/aio.c and src/poller.c keeps each block in one place, and each callback to
-- be called once.
use mathlib.Core.Path.{subst}
use mathlib.Core.Option.{some-injective}
use udepot_hopscotch.Base.{
  ℕ, ◌+◌, ◌<◌, ◌≡◌, ap, inl, inr, Bool, false, Bool-cases, Option, none, some, List, [], ◌∷◌, ◌++◌,
  arith, length, ◌==◌, update,
}
use udepot_hopscotch.Queue.Spec.{enqueue, dequeue}
use udepot_hopscotch.Handler.{qsize}
use udepot_hopscotch.Handler.Flow.{
  tally, tally-append, tally-one, one, all_requests, size_all, enqueue_room,
}
use udepot_hopscotch.Aio.{
  Pools, Callback, Iocb, make_callback, call_now, reap_event, init_pools, einval,
}
use udepot_hopscotch.Aio.Flow.Submit.{accept_step, refuse_step}
use udepot_hopscotch.Aio.Flow.{
  out-same, System, Step, make, finish, accept, refuse, complete, reap, Reach, start, next, out,
  calls, calls-append, call_of, data_of, IsAio, tally-same, only_here, first_tally, at_self, picked,
  update_at, update_off,
}
use udepot_hopscotch.Handler.Flow.Once.{at}

module _ (s : System) (v : IsAio s) where
  -- A callback that is in the pool is not held, and no control block has it.
  pooled_only :
      (p : ℕ)
      → 0 < tally (at p) (s.hlr).cb_pool
      → (tally (at p) s.held ≡ 0) × (out (λ q. at p (data_of s.hlr q)) s ≡ 0)
  pooled_only p pos =
      let rest =
        only_here p (tally (at p) (s.hlr).cb_pool)
          (tally (at p) s.held + out (λ q. at p (data_of s.hlr q)) s)
          (omega (arith, v.callbacks (at p))) pos in
      (omega (arith, rest), omega (arith, rest))

  module _ (func arg : ℕ) (nz : ((dequeue (s.hlr).cb_pool).0 == 0) ≡ false) where
    abbrev p : ℕ
    p = (dequeue (s.hlr).cb_pool).0

    abbrev hlr' : Pools
    hlr' = record (s.hlr) {
      cb_pool = (dequeue (s.hlr).cb_pool).1;
      cb_arr = update (s.hlr).cb_arr p (record { func = func; arg = arg; iocb = 0 });
    }

    make-IsAio :
        IsAio (record s { hlr = hlr'; held = p ∷ s.held; made = s.made ++ (func, arg) ∷ [] })
    unfolding tally calls
    make-IsAio =
        let first = first_tally (s.hlr).cb_pool nz in
        let away = pooled_only p (omega (arith, first (at p), at_self p)) in
        record {
          callbacks = λ f. omega (arith, v.callbacks f, first f);
          blocks = v.blocks;
          called = λ g.
              let f' = λ (c : ℕ). g (call_of hlr' c) in
              let f = λ (c : ℕ). g (call_of s.hlr c) in
              let same : (c : ℕ) → at p c ≡ 0 → f' c ≡ f c = λ c off.
                ap (λ (b : Callback). g (b.func, b.arg)) (update_off (s.hlr).cb_arr p c _ off) in
              let new : f' p ≡ g (func, arg) =
                ap (λ (b : Callback). g (b.func, b.arg)) (update_at (s.hlr).cb_arr p _) in
              omega (
                arith,
                v.called g,
                calls-append g s.made ((func, arg) ∷ []),
                new,
                tally-same f' f (at p) s.held same away.0,
                out-same (λ q. f' (data_of s.hlr q)) (λ q. f (data_of s.hlr q))
                    (λ q. at p (data_of s.hlr q)) s (λ q. same (data_of s.hlr q)) away.1,
              );
        }

  make_step :
      (func arg c : ℕ) (h : Pools)
      → make_callback s.hlr func arg ≡ some (c, h)
      → IsAio (record s { hlr = h; held = c ∷ s.held; made = s.made ++ (func, arg) ∷ [] })
  unfolding make_callback
  make_step func arg c h e = elim (Bool-cases ((dequeue (s.hlr).cb_pool).0 == 0)) [
    | inl z ↦
        let bad : ◌≡◌ {A = Option (ℕ × Pools)} none (some (c, h)) = rw (make_callback, z) at e in cc
    | inr nz ↦
        subst
          (λ (r : ℕ × Pools).
            IsAio (record s { hlr = r.1; held = r.0 ∷ s.held; made = s.made ++ (func, arg) ∷ [] }))
          (some-injective _ _ (rw (make_callback, nz) at e)) (make-IsAio func arg nz)
  ]

  -- The pool has room for a callback that is elsewhere.
  cb_room : 0 < tally one s.held + out one s → length (s.hlr).cb_pool < qsize
  cb_room pos = omega (arith, v.callbacks one, size_all, tally-one (s.hlr).cb_pool)

  iocb_room : 0 < out one s → length (s.hlr).iocb_pool < qsize
  iocb_room pos = omega (arith, v.blocks one, size_all, tally-one (s.hlr).iocb_pool)

  finish-IsAio :
      (c : ℕ) (xs ys : List ℕ)
      → s.held ≡ xs ++ c ∷ ys
      → IsAio (record s { hlr = call_now s.hlr c; held = xs ++ ys })
  unfolding call_now tally calls
  finish-IsAio c xs ys e =
      let one_of = λ (f : ℕ → ℕ). picked f c xs ys s.held e in
      let back =
        ap (λ (r : Bool × List ℕ). r.1)
          (enqueue_room c (s.hlr).cb_pool (cb_room (omega (arith, one_of one)))) in
      record {
        callbacks = λ f. omega (
          arith,
          v.callbacks f,
          one_of f,
          ap (tally f) back,
          tally-append f (s.hlr).cb_pool (c ∷ []),
        );
        blocks = v.blocks;
        called = λ g. omega (
          arith,
          v.called g,
          one_of (λ b. g (call_of s.hlr b)),
          calls-append g (s.hlr).called (call_of s.hlr c ∷ []),
        );
      }

  complete-IsAio :
      (q res : ℕ) (xs ys : List ℕ)
      → (s.hlr).aio_ctx ≡ xs ++ q ∷ ys
      → IsAio (record s {
        hlr = record (s.hlr) { aio_ctx = xs ++ ys };
        events = s.events ++ q ∷ [];
        res = update s.res q res;
      })
  unfolding tally
  complete-IsAio q res xs ys e =
      let taken = λ (f : ℕ → ℕ). picked f q xs ys (s.hlr).aio_ctx e in
      let put = λ (f : ℕ → ℕ). tally-append f s.events (q ∷ []) in
      record {
        callbacks = λ f.
            let f' = λ (b : ℕ). f (data_of s.hlr b) in
            omega (arith, v.callbacks f, taken f', put f');
        blocks = λ f. omega (arith, v.blocks f, taken f, put f);
        called = λ g.
            let f' = λ (b : ℕ). g (call_of s.hlr (data_of s.hlr b)) in
            omega (arith, v.called g, taken f', put f');
      }

  -- A block whose event is taken.
  module _ (q : ℕ) (rest : List ℕ) (e : s.events ≡ q ∷ rest) where
    reaped : Pools
    reaped = record (s.hlr) {
      called = (s.hlr).called ++ call_of s.hlr (data_of s.hlr q) ∷ [];
      iocb_pool = (enqueue qsize q (s.hlr).iocb_pool).1;
      cb_pool = (enqueue qsize (data_of s.hlr q) (s.hlr).cb_pool).1;
    }

    reap-IsAio : IsAio (record s { hlr = reaped; events = rest })
    unfolding reaped tally calls
    reap-IsAio =
        let events_of = λ (f : ℕ → ℕ). ap (tally f) e in
        let room : 0 < out one s = omega (arith, events_of one) in
        let cb_back =
          ap (λ (r : Bool × List ℕ). r.1)
            (enqueue_room (data_of s.hlr q) (s.hlr).cb_pool (cb_room (omega (arith, room)))) in
        let iocb_back =
          ap (λ (r : Bool × List ℕ). r.1) (enqueue_room q (s.hlr).iocb_pool (iocb_room room)) in
        record {
          callbacks = λ f. omega (
            arith,
            v.callbacks f,
            events_of (λ b. f (data_of s.hlr b)),
            ap (tally f) cb_back,
            tally-append f (s.hlr).cb_pool (data_of s.hlr q ∷ []),
          );
          blocks = λ f. omega (
            arith,
            v.blocks f,
            events_of f,
            ap (tally f) iocb_back,
            tally-append f (s.hlr).iocb_pool (q ∷ []),
          );
          called = λ g. omega (
            arith,
            v.called g,
            events_of (λ b. g (call_of s.hlr (data_of s.hlr b))),
            calls-append g (s.hlr).called (call_of s.hlr (data_of s.hlr q) ∷ []),
          );
        }

    reap_step :
        (h : Pools)
        → reap_event s.hlr q (s.res q) ≡ some h
        → IsAio (record s { hlr = h; events = rest })
    unfolding reap_event reaped
    reap_step h r = elim (Bool-cases (s.res q == einval)) [
      | inl y ↦
          subst (λ k. IsAio (record s { hlr = k; events = rest }))
            (some-injective _ _ (rw (reap_event, y) at r)) reap-IsAio
      | inr n ↦ elim (Bool-cases (s.res q == ((s.hlr).iocb_arr q).nbytes)) [
        | inl y ↦
            subst (λ k. IsAio (record s { hlr = k; events = rest }))
              (some-injective _ _ (rw (reap_event, n, y) at r)) reap-IsAio
        | inr m ↦ let bad : ◌≡◌ {A = Option Pools} none (some h) = rw (reap_event, n, m) at r in cc
      ]
    ]

Step-IsAio : {s t : System} → Step s t → IsAio s → IsAio t
Step-IsAio (make s func arg p h e) v = make_step s v func arg p h e
Step-IsAio (finish s p xs ys e) v = finish-IsAio s v p xs ys e
Step-IsAio (accept s opcode addr size buf p xs ys h e r) v =
    accept_step s v opcode addr size buf p xs ys h e r
Step-IsAio (refuse s opcode addr size buf p xs ys h e r) v =
    refuse_step s v opcode addr size buf p xs ys h e r
Step-IsAio (complete s q res xs ys e) v = complete-IsAio s v q res xs ys e
Step-IsAio (reap s q rest h e r) v = reap_step s v q rest e h r

Reach-IsAio : {s t : System} → Reach s t → IsAio s → IsAio t
Reach-IsAio (start s) v = v
Reach-IsAio (next s t u r x) v = Step-IsAio x (Reach-IsAio r v)

-- The blocks of `handler_init`, with nothing to be done.
abbrev pub idle : (ℕ → Iocb) → (ℕ → Callback) → System
idle iocb_arr cb_arr = record {
  hlr = init_pools iocb_arr cb_arr;
  held = [];
  lost = [];
  events = [];
  res = λ q. 0;
  made = [];
}

nothing_out : (n : ℕ) → (n + 0 + (0 + 0 + 0) ≡ n) × (n + (0 + 0 + 0) ≡ n)
nothing_out n = omega arith

idle-IsAio : (iocb_arr : ℕ → Iocb) (cb_arr : ℕ → Callback) → IsAio (idle iocb_arr cb_arr)
unfolding init_pools tally calls
idle-IsAio iocb_arr cb_arr = record {
  callbacks = λ f. (nothing_out (tally f all_requests)).0;
  blocks = λ f. (nothing_out (tally f all_requests)).1;
  called = λ g. omega arith;
}

-- In any run of the thread that makes and submits callbacks, the kernel and the thread that takes events, from
-- the pools of `handler_init`: each callback and each control block is in its pool, held, in the kernel, done
-- or refused by io_submit, once and in one place only; and of the callbacks that were made each was called
-- once, with its function and argument, or is still in one of those places.
pub init_pools-IsAio :
    (iocb_arr : ℕ → Iocb) (cb_arr : ℕ → Callback) (s : System)
    → Reach (idle iocb_arr cb_arr) s
    → IsAio s
init_pools-IsAio iocb_arr cb_arr s r = Reach-IsAio r (idle-IsAio iocb_arr cb_arr)
