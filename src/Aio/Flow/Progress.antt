-- ===== src/Aio/Flow/Progress.antt =====
-- When the blocks of src/aio.c run out, and what a run that has come to rest has done.
use udepot_hopscotch.Base.{
  ℕ, ◌+◌, ◌≡◌, ◌≢◌, ◌↔◌, refl, ap, inl, inr, Bool, true, ◌<◌, Option, none, some, List, [], ◌∷◌,
  arith, length, ◌==◌, Bool-cases, ==_iff,
}
use udepot_hopscotch.Queue.Spec.{dequeue}
use udepot_hopscotch.Handler.{qsize}
use udepot_hopscotch.Handler.Flow.{tally, tally-one, one, size_all, no_null, zero_at, dequeue_none}
use udepot_hopscotch.Aio.{Pools, Callback, Iocb, Opcode, make_callback, submit}
use udepot_hopscotch.Aio.Flow.{System, Reach, out, calls, call_of, data_of, IsAio}
use udepot_hopscotch.Aio.Flow.Invariant.{idle, init_pools-IsAio}

pool_empty : (xs : List ℕ) → tally one xs ≡ 0 → (dequeue xs).0 ≡ 0
unfolding dequeue tally
pool_empty [] e = refl
pool_empty (x ∷ xs) e = absurd (omega (arith, e))

-- A pool without NULL gives NULL exactly when it is empty.
null_iff :
    (xs : List ℕ) → tally zero_at xs ≡ 0 → (((dequeue xs).0 == 0) ≡ true) ↔ (tally one xs ≡ 0)
unfolding tally
null_iff xs clean = (
  λ z. ap (tally one) (dequeue_none xs clean ((==_iff _ _).0 z)),
  λ e. (==_iff _ _).1 (pool_empty xs e),
)

made_none :
    (hlr : Pools) (func arg : ℕ)
    → (make_callback hlr func arg ≡ none) ↔ (((dequeue hlr.cb_pool).0 == 0) ≡ true)
unfolding make_callback
made_none hlr func arg = elim (Bool-cases ((dequeue hlr.cb_pool).0 == 0)) [
  | inl z ↦ (λ e. z, λ y. rw (make_callback, z) refl)
  | inr nz ↦ (
    λ e. let bad : ◌≡◌ {A = Option (ℕ × Pools)} (some _) none = rw (make_callback, nz) at e in cc,
    λ y. cc,
  )
]

submit-none :
    (opcode : Opcode) (hlr : Pools) (addr size buf p : ℕ) (accepted : Bool)
    → submit opcode hlr addr size buf p accepted ≡ none
    → ((dequeue hlr.iocb_pool).0 == 0) ≡ true
unfolding submit
submit-none opcode hlr addr size buf p accepted e =
    elim (Bool-cases ((dequeue hlr.iocb_pool).0 == 0)) [
      | inl z ↦ z
      | inr nz ↦
          let bad : ◌≡◌ {A = Option (Bool × Pools)} (some _) none = rw (submit, nz) at e in cc
    ]

-- The control blocks that are not in their pool.
abbrev away : System → ℕ
away s = length (s.hlr).aio_ctx + length s.events + length s.lost

out-one : (s : System) → out one s ≡ away s
out-one s = omega (arith, tally-one (s.hlr).aio_ctx, tally-one s.events, tally-one s.lost)

module _ (iocb_arr : ℕ → Iocb) (cb_arr : ℕ → Callback) (s : System)
    (r : Reach (idle iocb_arr cb_arr) s) where
  abbrev v : IsAio s
  v = init_pools-IsAio iocb_arr cb_arr s r

  -- In any run from `handler_init`, `make_callback` writes through NULL exactly when all 1024 callbacks are held,
  -- in the kernel, done or refused.
  pub make_callback-exhausted :
      (func arg : ℕ)
      → (make_callback s.hlr func arg ≡ none)
        ↔ (length s.held + (length (s.hlr).aio_ctx + length s.events + length s.lost) ≡ qsize)
  make_callback-exhausted func arg =
      let n = null_iff (s.hlr).cb_pool (omega (arith, v.callbacks zero_at, no_null)) in
      let m = made_none s.hlr func arg in
      let all = v.callbacks one in
      let held = tally-one s.held in
      let outside = out-one s in
      (
        λ e. let empty = n.0 (m.0 e) in omega (arith, empty, all, size_all, held, outside),
        λ e. m.1 (n.1 (omega (arith, e, all, size_all, held, outside))),
      )

  -- In any run from `handler_init`, a callback that is held can be submitted: `aio_read` and `aio_write` find
  -- a control block.
  pub submit-never_none :
      (opcode : Opcode) (addr size buf p : ℕ) (accepted : Bool)
      → 0 < length s.held
      → submit opcode s.hlr addr size buf p accepted ≢ none
  submit-never_none opcode addr size buf p accepted some_held e =
      let n = null_iff (s.hlr).iocb_pool (omega (arith, v.blocks zero_at, no_null)) in
      let empty = n.0 (submit-none opcode s.hlr addr size buf p accepted e) in
      omega (arith, empty, v.blocks one, v.callbacks one, tally-one s.held, some_held)

  -- In any run from `handler_init` that has come to rest, with nothing held, in the kernel or done: both pools
  -- have all their blocks but the refused ones, and each callback that was made was called once, but for
  -- those of refused blocks.
  pub run-drained :
      s.held ≡ []
      → (s.hlr).aio_ctx ≡ []
      → s.events ≡ []
      → (length (s.hlr).cb_pool + length s.lost ≡ qsize)
        × (length (s.hlr).iocb_pool + length s.lost ≡ qsize)
        × ((g : ℕ × ℕ → ℕ)
            → calls g s.made
              ≡ calls g (s.hlr).called + tally (λ q. g (call_of s.hlr (data_of s.hlr q))) s.lost)
  unfolding tally
  run-drained held ctx events = (
    omega (
      arith,
      v.callbacks one,
      size_all,
      ap (tally one) held,
      ap (tally one) ctx,
      ap (tally one) events,
      tally-one s.lost,
      tally-one (s.hlr).cb_pool,
    ),
    omega (
      arith,
      v.blocks one,
      size_all,
      ap (tally one) ctx,
      ap (tally one) events,
      tally-one s.lost,
      tally-one (s.hlr).iocb_pool,
    ),
    λ g.
        let f = λ (p : ℕ). g (call_of s.hlr p) in
        let h = λ (q : ℕ). g (call_of s.hlr (data_of s.hlr q)) in
        omega (arith, v.called g, ap (tally f) held, ap (tally h) ctx, ap (tally h) events),
  )
