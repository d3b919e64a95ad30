-- ===== src/Aio/Flow.antt =====
-- Where each block of src/aio.c is, in any run of the thread that makes callbacks and the one that polls.
pub mod Invariant
pub mod Progress
pub mod Submit
use udepot_hopscotch.Base.{
  ℕ, zero, suc, ◌+◌, ◌≤◌, ◌<◌, ◌≡◌, ◌≢◌, refl, ◌∙◌, sym, ap, inl, inr, Bool, true, false,
  Bool-cases, Option, none, some, List, [], ◌∷◌, ◌++◌, arith, length, length-append, ◌==◌,
  if◌then◌else◌, ==_iff, ==→ne, update,
}
use udepot_hopscotch.Queue.Spec.{enqueue, dequeue}
use udepot_hopscotch.Handler.{qsize, fill_pool}
use udepot_hopscotch.Handler.Flow.{
  tally, tally-append, tally-one, one, all_requests, size_all, no_null, zero_at, enqueue_room,
}
use udepot_hopscotch.Handler.Flow.Once.{at, all_once}
use udepot_hopscotch.Aio.{
  Pools, Callback, Iocb, Opcode, make_callback, submit, call_now, reap_event, init_pools,
}

-- `held` is the callbacks that were made and not handed on yet, `lost` the blocks that io_submit refused,
-- `events` the ones that are done, with their results, and `made` what was to be called, as it was made.
pub record System : Type 0 where
  pub hlr : Pools
  pub held : List ℕ
  pub lost : List ℕ
  pub events : List ℕ
  pub res : ℕ → ℕ
  pub made : List (ℕ × ℕ)

pub data Step : System → System → Type 0 where
  make :
      (s : System) (func arg p : ℕ) (h : Pools)
      → make_callback s.hlr func arg ≡ some (p, h)
      → Step s (record s { hlr = h; held = p ∷ s.held; made = s.made ++ (func, arg) ∷ [] })
  finish :
      (s : System) (p : ℕ) (xs ys : List ℕ)
      → s.held ≡ xs ++ p ∷ ys
      → Step s (record s { hlr = call_now s.hlr p; held = xs ++ ys })
  accept :
      (s : System) (opcode : Opcode) (addr size buf p : ℕ) (xs ys : List ℕ) (h : Pools)
      → s.held ≡ xs ++ p ∷ ys
      → submit opcode s.hlr addr size buf p true ≡ some (true, h)
      → Step s (record s { hlr = h; held = xs ++ ys })
  refuse :
      (s : System) (opcode : Opcode) (addr size buf p : ℕ) (xs ys : List ℕ) (h : Pools)
      → s.held ≡ xs ++ p ∷ ys
      → submit opcode s.hlr addr size buf p false ≡ some (false, h)
      → Step s
          (record s { hlr = h; held = xs ++ ys; lost = (dequeue (s.hlr).iocb_pool).0 ∷ s.lost })
  complete :
      (s : System) (q res : ℕ) (xs ys : List ℕ)
      → (s.hlr).aio_ctx ≡ xs ++ q ∷ ys
      → Step s (record s {
        hlr = record (s.hlr) { aio_ctx = xs ++ ys };
        events = s.events ++ q ∷ [];
        res = update s.res q res;
      })
  reap :
      (s : System) (q : ℕ) (rest : List ℕ) (h : Pools)
      → s.events ≡ q ∷ rest
      → reap_event s.hlr q (s.res q) ≡ some h
      → Step s (record s { hlr = h; events = rest })

pub data Reach : System → System → Type 0 where
  start : (s : System) → Reach s s
  next : (s t u : System) → Reach s t → Step t u → Reach s u

-- A sum over the control blocks that are not in their pool.
abbrev pub out : (ℕ → ℕ) → System → ℕ
out f s = tally f (s.hlr).aio_ctx + tally f s.events + tally f s.lost

-- A sum over calls.
unfoldable pub calls : (ℕ × ℕ → ℕ) → List (ℕ × ℕ) → ℕ
calls g [] = 0
calls g (x ∷ xs) = g x + calls g xs

calls-append : (g : ℕ × ℕ → ℕ) (xs ys : List (ℕ × ℕ)) → calls g (xs ++ ys) ≡ calls g xs + calls g ys
unfolding calls
calls-append g [] ys = omega arith
calls-append g (x ∷ xs) ys = omega (arith, calls-append g xs ys)

-- What a callback is to call.
abbrev pub call_of : Pools → ℕ → ℕ × ℕ
call_of hlr p = ((hlr.cb_arr p).func, (hlr.cb_arr p).arg)

abbrev pub data_of : Pools → ℕ → ℕ
data_of hlr q = (hlr.iocb_arr q).cb

-- Sums over the callbacks and over the control blocks never change, so that each is in one place, once; and
-- each callback that was made was called once or is still to be.
pub record IsAio (s : System) : Type 0 where
  pub callbacks :
      (f : ℕ → ℕ)
      → tally f (s.hlr).cb_pool + tally f s.held + out (λ q. f (data_of s.hlr q)) s
        ≡ tally f all_requests
  pub blocks : (f : ℕ → ℕ) → tally f (s.hlr).iocb_pool + out f s ≡ tally f all_requests
  pub called :
      (g : ℕ × ℕ → ℕ)
      → calls g s.made
        ≡ calls g (s.hlr).called
          + tally (λ p. g (call_of s.hlr p)) s.held
          + out (λ q. g (call_of s.hlr (data_of s.hlr q))) s

-- A sum depends on the values at the members only.
tally-same :
    (f g h : ℕ → ℕ) (xs : List ℕ)
    → ((q : ℕ) → h q ≡ 0 → f q ≡ g q)
    → tally h xs ≡ 0
    → tally f xs ≡ tally g xs
unfolding tally
tally-same f g h [] same e = refl
tally-same f g h (x ∷ xs) same e =
    omega (arith, same x (omega arith), tally-same f g h xs same (omega arith))

-- A member of a pool is nowhere else.
only_here : (p a b : ℕ) → a + b ≡ tally (at p) all_requests → 0 < a → b ≡ 0
only_here p a b e pos = omega (arith, all_once p)

-- A block that comes first in its pool.
first_tally :
    (xs : List ℕ)
    → ((dequeue xs).0 == 0) ≡ false
    → (f : ℕ → ℕ) → tally f xs ≡ f (dequeue xs).0 + tally f (dequeue xs).1
unfolding dequeue tally
first_tally [] ne f = absurd (ground arith)
first_tally (x ∷ xs) ne f = refl

at_self : (p : ℕ) → at p p ≡ 1
at_self p = ground arith

at_ne : (p q : ℕ) → at p q ≡ 0 → q ≢ p
at_ne p q e = ground arith

-- One of a list, and the others.
picked :
    (f : ℕ → ℕ) (p : ℕ) (xs ys zs : List ℕ)
    → zs ≡ xs ++ p ∷ ys
    → tally f zs ≡ f p + tally f (xs ++ ys)
unfolding tally
picked f p xs ys zs e =
    omega (arith, ap (tally f) e, tally-append f xs (p ∷ ys), tally-append f xs ys)

pub update_at : {A : Type 0} (t : ℕ → A) (p : ℕ) (a : A) → update t p a p ≡ a
update_at t p a = ground arith

update_off : {A : Type 0} (t : ℕ → A) (p q : ℕ) (a : A) → at p q ≡ 0 → update t p a q ≡ t q
update_off t p q a off = ground arith

out-same :
    (f g h : ℕ → ℕ) (s : System) → ((q : ℕ) → h q ≡ 0 → f q ≡ g q) → out h s ≡ 0 → out f s ≡ out g s
out-same f g h s same e = omega (
  arith,
  tally-same f g h (s.hlr).aio_ctx same (omega (arith, e)),
  tally-same f g h s.events same (omega (arith, e)),
  tally-same f g h s.lost same (omega (arith, e)),
)
