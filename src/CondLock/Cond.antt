-- ===== src/CondLock/Cond.antt =====
-- The other operations of src/cond_lock.c, which the handler does not call: cl_cond_grap, cl_always_release,
-- cl_now_update, cl_grep_with_f and cl_release_with_f.
use udepot_hopscotch.Base.{ℕ, ◌+◌, ◌^◌, ◌≡◌, ◌<◌, Bool, true, false, if◌then◌else◌, arith}
use udepot_hopscotch.CondLock.{ClLock, up, down}

-- A call that takes the mutex once: whether it waits, once and before anything else, on the condition; what
-- it then does to the lock; and whether it broadcasts.
pub record Call : Type 0 where
  pub waits : Bool
  pub run : ClLock → ClLock
  pub broadcasts : Bool

unfoldable pub cl_cond_grap : Bool → Call
cl_cond_grap flag = record {
  waits = flag;
  run = λ cl. if cl.zero_lock then down cl else up cl;
  broadcasts = false;
}

abbrev pub cl_always_release : Call
cl_always_release = record { waits = false; run = λ cl. cl; broadcasts = true }

unfoldable pub cl_now_update : ℕ → Call
cl_now_update input = record {
  waits = false;
  run = λ cl. record cl { now = input };
  broadcasts = false;
}

unfoldable pub cl_grep_with_f : ℕ → ℕ → (ℕ → ℕ → Bool) → Call
cl_grep_with_f s d cmp = record { waits = cmp s d; run = λ cl. cl; broadcasts = false }

unfoldable pub cl_release_with_f : ℕ → ℕ → (ℕ → ℕ → Bool) → Call
cl_release_with_f s d cmp = record { waits = false; run = λ cl. cl; broadcasts = cmp s d }

-- `cl_cond_grap` does not test the lock when it wakes: at a full lock it counts past the limit.
cl_cond_grap-exceeds :
    (flag : Bool) (l : ClLock)
    → l.zero_lock ≡ false
    → l.now ≡ l.cnt
    → l.cnt < 2 ^ 31
    → ((cl_cond_grap flag).run l).now ≡ l.cnt + 1
unfolding cl_cond_grap
cl_cond_grap-exceeds flag l counts full word = rw counts (omega (arith, full, word))
