-- ===== src/Aio/Flow/Submit.antt =====
-- A callback of src/aio.c that is submitted, and what io_submit makes of its control block.
use mathlib.Core.Path.{subst}
use mathlib.Core.Option.{some-injective}
use udepot_hopscotch.Base.{
  ℕ, ◌+◌, ◌<◌, ◌≡◌, refl, ◌∙◌, ap, inl, inr, Bool, true, false, Bool-cases, Option, none, some,
  List, ◌∷◌, ◌++◌, arith, ◌==◌, if◌then◌else◌, update,
}
use udepot_hopscotch.Queue.Spec.{dequeue}
use udepot_hopscotch.Handler.Flow.{tally}
use udepot_hopscotch.Aio.{Pools, Iocb, Opcode, submit}
use udepot_hopscotch.Aio.Flow.{
  out-same, System, out, calls, call_of, data_of, IsAio, only_here, first_tally, at_self, picked,
  update_at, update_off,
}
use udepot_hopscotch.Handler.Flow.Once.{at}

module _ (s : System) (v : IsAio s) where
  iocb_only : (q : ℕ) → 0 < tally (at q) (s.hlr).iocb_pool → out (at q) s ≡ 0
  iocb_only q pos =
      only_here q (tally (at q) (s.hlr).iocb_pool) (out (at q) s) (v.blocks (at q)) pos

  -- A block that was taken from its pool for a callback.
  module _ (opcode : Opcode) (addr size buf c : ℕ) (xs ys : List ℕ) (e : s.held ≡ xs ++ c ∷ ys)
      (nz : ((dequeue (s.hlr).iocb_pool).0 == 0) ≡ false) where
    abbrev q : ℕ
    q = (dequeue (s.hlr).iocb_pool).0

    abbrev submitted : Bool → Pools
    submitted accepted = record (s.hlr) {
      iocb_pool = (dequeue (s.hlr).iocb_pool).1;
      iocb_arr =
          update (s.hlr).iocb_arr q
            (record { opcode = opcode; buf = buf; nbytes = size; offset = addr; cb = c });
      cb_arr = update (s.hlr).cb_arr c (record ((s.hlr).cb_arr c) { iocb = q });
      aio_ctx = if accepted then q ∷ (s.hlr).aio_ctx else (s.hlr).aio_ctx;
    }

    -- What the callbacks are to call does not change.
    same_call : (b : ℕ) → call_of (submitted true) b ≡ call_of s.hlr b
    same_call b = ground arith

    -- The other blocks keep their callbacks.
    same_data : (b : ℕ) → at q b ≡ 0 → data_of (submitted true) b ≡ data_of s.hlr b
    same_data b off = ap (λ (i : Iocb). i.cb) (update_off (s.hlr).iocb_arr q b _ off)

    new_data : data_of (submitted true) q ≡ c
    new_data = ap (λ (i : Iocb). i.cb) (update_at (s.hlr).iocb_arr q _)

    moves :
        (f f' : ℕ → ℕ)
        → ((b : ℕ) → f' b ≡ f b)
        → out (λ b. f' (data_of (submitted true) b)) s ≡ out (λ b. f (data_of s.hlr b)) s
    moves f f' same =
        out-same (λ b. f' (data_of (submitted true) b)) (λ b. f (data_of s.hlr b)) (at q) s
          (λ b off. same (data_of (submitted true) b) ∙ ap f (same_data b off))
          (iocb_only q (omega (arith, first_tally (s.hlr).iocb_pool nz (at q), at_self q)))

    first : (f : ℕ → ℕ) → tally f (s.hlr).iocb_pool ≡ f q + tally f (dequeue (s.hlr).iocb_pool).1
    first = first_tally (s.hlr).iocb_pool nz

    one_of : (f : ℕ → ℕ) → tally f s.held ≡ f c + tally f (xs ++ ys)
    one_of f = picked f c xs ys s.held e

    -- The calls that are not made yet, with the one of the block.
    called_lem :
        (g : ℕ × ℕ → ℕ)
        → calls g s.made
          ≡ calls g (s.hlr).called
            + tally (λ b. g (call_of (submitted true) b)) (xs ++ ys)
            + (g (call_of (submitted true) (data_of (submitted true) q))
                + out (λ b. g (call_of (submitted true) (data_of (submitted true) b))) s)
    called_lem g =
        let f = λ (b : ℕ). g (call_of s.hlr b) in
        let f' = λ (b : ℕ). g (call_of (submitted true) b) in
        let same : (b : ℕ) → f' b ≡ f b = λ b. ap g (same_call b) in
        omega (
          arith,
          v.called g,
          one_of f,
          moves f f' same,
          ap f' new_data,
          same c,
          ap (λ (h : ℕ → ℕ). tally h (xs ++ ys)) (λ i b. same b i),
        )

    accept-IsAio : IsAio (record s { hlr = submitted true; held = xs ++ ys })
    unfolding tally
    accept-IsAio = record {
      callbacks = λ f. omega (arith, v.callbacks f, one_of f, moves f f (λ b. refl), ap f new_data);
      blocks = λ f. omega (arith, v.blocks f, first f);
      called = λ g. omega (arith, called_lem g);
    }

    refuse-IsAio : IsAio (record s { hlr = submitted false; held = xs ++ ys; lost = q ∷ s.lost })
    unfolding tally
    refuse-IsAio = record {
      callbacks = λ f. omega (arith, v.callbacks f, one_of f, moves f f (λ b. refl), ap f new_data);
      blocks = λ f. omega (arith, v.blocks f, first f);
      called = λ g. omega (arith, called_lem g);
    }

  module _ (opcode : Opcode) (addr size buf c : ℕ) (xs ys : List ℕ) (h : Pools)
      (e : s.held ≡ xs ++ c ∷ ys) where
    pub accept_step :
        submit opcode s.hlr addr size buf c true ≡ some (true, h)
        → IsAio (record s { hlr = h; held = xs ++ ys })
    unfolding submit
    accept_step r = elim (Bool-cases ((dequeue (s.hlr).iocb_pool).0 == 0)) [
      | inl z ↦
          let bad : ◌≡◌ {A = Option (Bool × Pools)} none (some (true, h)) = rw (submit, z) at r in
          cc
      | inr nz ↦
          subst (λ (k : Bool × Pools). IsAio (record s { hlr = k.1; held = xs ++ ys }))
            (some-injective _ _ (rw (submit, nz) at r))
            (accept-IsAio opcode addr size buf c xs ys e nz)
    ]

    pub refuse_step :
        submit opcode s.hlr addr size buf c false ≡ some (false, h)
        → IsAio
            (record s { hlr = h; held = xs ++ ys; lost = (dequeue (s.hlr).iocb_pool).0 ∷ s.lost })
    unfolding submit
    refuse_step r = elim (Bool-cases ((dequeue (s.hlr).iocb_pool).0 == 0)) [
      | inl z ↦
          let bad : ◌≡◌ {A = Option (Bool × Pools)} none (some (false, h)) = rw (submit, z) at r in
          cc
      | inr nz ↦
          subst
            (λ (k : Bool × Pools). IsAio (record s {
              hlr = k.1;
              held = xs ++ ys;
              lost = (dequeue (s.hlr).iocb_pool).0 ∷ s.lost;
            }))
            (some-injective _ _ (rw (submit, nz) at r))
            (refuse-IsAio opcode addr size buf c xs ys e nz)
    ]
