-- ===== src/Tests/CondLock.antt =====
-- A run at the lock of src/cond_lock.c: one thread gets it, the next one waits.
use udepot_hopscotch.Base.{refl, false, arith}
use udepot_hopscotch.CondLock.{cl_init, cl_grap, up, System, grap, wait, Reach, start, next}
use udepot_hopscotch.CondLock.Safety.{IsSafe, idle, cl_init-IsSafe}

abbrev taken : System
taken = record { lock = up (cl_init 1 false); holders = 1; waiting = 0; woken = 0 }

abbrev waited : System
waited = record { lock = up (cl_init 1 false); holders = 1; waiting = 1; woken = 0 }

run : Reach (idle 1) waited
unfolding cl_init cl_grap
run =
    next (idle 1) taken waited
      (next (idle 1) (idle 1) taken (start (idle 1)) (grap (idle 1) (up (cl_init 1 false)) refl))
      (wait taken refl)

cl_init-IsSafe_example : IsSafe waited
cl_init-IsSafe_example = cl_init-IsSafe 1 waited (omega arith) run
