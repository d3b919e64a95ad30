-- ===== src/CondLock.antt =====
-- The counting lock of src/cond_lock.c, by which a handler bounds its requests in flight, and the
-- threads at it. Each operation is one step under the mutex; a thread in `pthread_cond_wait` is one
-- that waits until a broadcast, and then tests again.
pub mod Safety
pub mod Cond
use udepot_hopscotch.Base.{
  ℕ, zero, suc, ◌+◌, ◌-◌, ◌%◌, ◌^◌, ◌<◌, ◌≡◌, Bool, true, false, Option, none, some, ◌==◌,
  if◌then◌else◌,
}

-- `cl_lock`, less its mutex and condition. `now` is an `int`, kept as its 32 bits.
pub record ClLock : Type 0 where
  pub cnt : ℕ
  pub now : ℕ
  pub zero_lock : Bool

unfoldable pub cl_init : ℕ → Bool → ClLock
cl_init cnt zero_lock = record { cnt = cnt; now = 0; zero_lock = zero_lock }

abbrev pub up : ClLock → ClLock
up cl = record cl { now = (cl.now + 1) % 2 ^ 32 }

abbrev pub down : ClLock → ClLock
down cl = record cl { now = (cl.now + 2 ^ 32 - 1) % 2 ^ 32 }

-- One test of the loop of `cl_grap`: `none` is a wait.
unfoldable pub cl_grap : ClLock → Option ClLock
cl_grap cl =
    if cl.zero_lock
    then (if cl.now == 0 then none else some (down cl))
    else if cl.now == cl.cnt
    then none
    else some (up cl)

-- The lock after `cl_release`, and whether it broadcasts.
unfoldable pub cl_release : ClLock → ClLock × Bool
cl_release cl = if cl.zero_lock then (up cl, cl.now == 0) else (down cl, cl.now == cl.cnt)

-- The lock, the number of threads that hold it, that wait, and that a broadcast has woken.
pub record System : Type 0 where
  pub lock : ClLock
  pub holders : ℕ
  pub waiting : ℕ
  pub woken : ℕ

-- The end of `cl_release` for the threads that wait.
abbrev pub broadcast : System → Bool → System
broadcast s b = if b then record s { waiting = 0; woken = s.woken + s.waiting } else s

pub data Step : System → System → Type 0 where
  -- A new thread gets the lock, or waits.
  grap :
      (s : System) (l : ClLock)
      → cl_grap s.lock ≡ some l
      → Step s (record s { lock = l; holders = s.holders + 1 })
  wait : (s : System) → cl_grap s.lock ≡ none → Step s (record s { waiting = s.waiting + 1 })
  -- A woken thread gets the lock, or waits again.
  grap_again :
      (s : System) (l : ClLock) (n : ℕ)
      → s.woken ≡ suc n
      → cl_grap s.lock ≡ some l
      → Step s (record s { lock = l; holders = s.holders + 1; woken = n })
  wait_again :
      (s : System) (n : ℕ)
      → s.woken ≡ suc n
      → cl_grap s.lock ≡ none
      → Step s (record s { waiting = s.waiting + 1; woken = n })
  -- A holder releases the lock.
  release :
      (s : System) (n : ℕ)
      → s.holders ≡ suc n
      → Step s
          (broadcast (record s { lock = (cl_release s.lock).0; holders = n }) (cl_release s.lock).1)

pub data Reach : System → System → Type 0 where
  start : (s : System) → Reach s s
  next : (s t u : System) → Reach s t → Step t u → Reach s u
