-- ===== src/Handler/Flow/Once.antt =====
-- The pointers of the pools that src/handler.c fills, each there once.
use udepot_hopscotch.Base.{
  ℕ, zero, suc, ◌+◌, ◌≤◌, ◌<◌, ◌≡◌, refl, inl, inr, Bool-cases, List, [], ◌∷◌, ◌++◌, arith, length,
  length-append, ◌==◌, if◌then◌else◌,
}
use udepot_hopscotch.Handler.{qsize, fill_pool}
use udepot_hopscotch.Handler.Flow.{tally, tally-append, all_requests, enqueue_room}

abbrev pub at : ℕ → ℕ → ℕ
at p q = if q == p then 1 else 0

fill_once :
    (n k : ℕ) (pool : List ℕ) (p : ℕ)
    → length pool + n ≤ qsize
    → (tally (at p) (fill_pool n k pool) ≤ tally (at p) pool + 1)
      × (p < k → tally (at p) (fill_pool n k pool) ≡ tally (at p) pool)
unfolding fill_pool tally
fill_once zero k pool p room = (omega arith, λ lt. refl)
fill_once (suc n) k pool p room =
    let queued = enqueue_room k pool (omega arith) in
    let r = fill_once n (k + 1) (pool ++ k ∷ []) p (omega (arith, length-append pool (k ∷ []))) in
    let add = tally-append (at p) pool (k ∷ []) in
    rw queued (elim (Bool-cases (k == p)) [
      | inl y ↦ (ground (arith, r.1, add), λ lt. absurd (ground arith))
      | inr n ↦ (ground (arith, r.0, add), λ lt. ground (arith, r.1 (omega arith), add))
    ])

-- Each pointer of a full pool is in it once.
pub all_once : (p : ℕ) → tally (at p) all_requests ≤ 1
unfolding tally
all_once p = (fill_once qsize 1 [] p (omega arith)).0
