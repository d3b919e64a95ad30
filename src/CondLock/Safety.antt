-- ===== src/CondLock/Safety.antt =====
-- What the counting lock of src/cond_lock.c keeps over any run of its threads.
use mathlib.Core.Option.{some-injective}
use udepot_hopscotch.Base.{
  sym, Option, ==_iff, ==→ne, ℕ, suc, ◌+◌, ◌%◌, ◌^◌, ◌≤◌, ◌<◌, ◌≡◌, refl, ap, inl, inr, false, none,
  some, arith, ◌==◌, Bool-cases,
}
use udepot_hopscotch.CondLock.{
  ClLock, cl_init, cl_grap, cl_release, System, broadcast, Step, grap, wait, grap_again, wait_again,
  release, Reach, start, next,
}

-- A lock that counts its holders up to `cnt`, and at which threads wait only while it is full.
pub record IsSafe (s : System) : Type 0 where
  pub counts : (s.lock).zero_lock ≡ false
  pub word : (s.lock).cnt < 2 ^ 31
  pub now : (s.lock).now ≡ s.holders
  pub bounded : s.holders ≤ (s.lock).cnt
  pub full : 0 < s.waiting → (s.lock).now ≡ (s.lock).cnt

-- A test of a lock that counts up, where it succeeds and where it does not.
pub grap_cases :
    (l l' : ClLock)
    → l.zero_lock ≡ false
    → cl_grap l ≡ some l'
    → (l'.zero_lock ≡ false)
      × (l'.cnt ≡ l.cnt)
      × (l'.now ≡ (l.now + 1) % 2 ^ 32)
      × ((l.now == l.cnt) ≡ false)
unfolding cl_grap
grap_cases l l' z e = elim (Bool-cases (l.now == l.cnt)) [
  | inl q ↦ let bad : ◌≡◌ {A = Option ClLock} none (some l') = rw (cl_grap, z, q) at e in cc
  | inr q ↦
      let same = sym (some-injective _ _ (rw (cl_grap, z, q) at e)) in
      (ap (λ x. x.zero_lock) same, ap (λ x. x.cnt) same, ap (λ x. x.now) same, q)
]

wait_cases : (l : ClLock) → l.zero_lock ≡ false → cl_grap l ≡ none → l.now ≡ l.cnt
unfolding cl_grap
wait_cases l z e = elim (Bool-cases (l.now == l.cnt)) [
  | inl q ↦ (==_iff _ _).0 q
  | inr q ↦
      let bad : ◌≡◌ {A = Option ClLock}
          (some (record { cnt = l.cnt; now = (l.now + 1) % 2 ^ 32; zero_lock = false })) none =
        rw (cl_grap, z, q) at e in
      cc
]

-- A thread that gets the lock, with any number of woken threads left.
taken :
    (s : System) (l : ClLock) (n : ℕ)
    → cl_grap s.lock ≡ some l
    → IsSafe s
    → IsSafe (record { lock = l; holders = s.holders + 1; waiting = s.waiting; woken = n })
taken s l n e v =
    let c = grap_cases s.lock l v.counts e in
    record {
      counts = c.0;
      word = omega (arith, c.1, v.word);
      now = omega (arith, c.1, c.2, v.word, v.now, v.bounded);
      bounded = omega (arith, c.1, v.now, v.bounded, ==→ne _ _ c.3);
      full = λ h. absurd (==→ne _ _ c.3 (v.full h));
    }

-- A thread that has to wait.
waits :
    (s : System) (n : ℕ)
    → cl_grap s.lock ≡ none
    → IsSafe s
    → IsSafe (record { lock = s.lock; holders = s.holders; waiting = s.waiting + 1; woken = n })
waits s n e v = record {
  counts = v.counts;
  word = v.word;
  now = v.now;
  bounded = v.bounded;
  full = λ h. wait_cases s.lock v.counts e;
}

-- A release broadcasts exactly where the lock was full.
released :
    (s : System) (n : ℕ)
    → s.holders ≡ suc n
    → IsSafe s
    → IsSafe
        (broadcast (record s { lock = (cl_release s.lock).0; holders = n }) (cl_release s.lock).1)
unfolding cl_release
released s n k v = elim (Bool-cases ((s.lock).now == (s.lock).cnt)) [
  | inl q ↦
      rw (cl_release, v.counts, q)
        (record {
          counts = refl;
          word = v.word;
          now = omega (arith, v.now, v.word, v.bounded);
          bounded = omega (arith, v.bounded);
          full = λ h. absurd (omega arith);
        })
  | inr q ↦
      rw (cl_release, v.counts, q)
        (record {
          counts = refl;
          word = v.word;
          now = omega (arith, v.now, v.word, v.bounded);
          bounded = omega (arith, v.bounded);
          full = λ h. absurd (==→ne _ _ q (v.full h));
        })
]

Step-IsSafe : {s t : System} → Step s t → IsSafe s → IsSafe t
Step-IsSafe (grap s l e) v = taken s l s.woken e v
Step-IsSafe (wait s e) v = waits s s.woken e v
Step-IsSafe (grap_again s l n k e) v = taken s l n e v
Step-IsSafe (wait_again s n k e) v = waits s n e v
Step-IsSafe (release s n k) v = released s n k v

Reach-IsSafe : {s t : System} → Reach s t → IsSafe s → IsSafe t
Reach-IsSafe (start s) v = v
Reach-IsSafe (next s t u r x) v = Step-IsSafe x (Reach-IsSafe r v)

-- The lock of `cl_init` with no thread at it.
abbrev pub idle : ℕ → System
idle cnt = record { lock = cl_init cnt false; holders = 0; waiting = 0; woken = 0 }

idle-IsSafe : (cnt : ℕ) → cnt < 2 ^ 31 → IsSafe (idle cnt)
unfolding cl_init
idle-IsSafe cnt h = record {
  counts = refl;
  word = h;
  now = refl;
  bounded = omega arith;
  full = λ w. absurd (omega arith);
}

-- From a lock that counts up to `cnt`, below 2 ^ 31, with no thread at it, every run of its threads
-- keeps at most `cnt` holders, `now` at their number, and no thread waiting but where the lock is
-- full: no wake-up is lost.
pub cl_init-IsSafe : (cnt : ℕ) (t : System) → cnt < 2 ^ 31 → Reach (idle cnt) t → IsSafe t
cl_init-IsSafe cnt t h r = Reach-IsSafe r (idle-IsSafe cnt h)
