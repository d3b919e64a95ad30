-- ===== src/Base/First.antt =====
-- The postcondition of a linear search: the least index of a range at which a test holds.
use Prim.Native.Nat.{ℕ, ◌+◌, ◌≤◌, ◌<◌}
use mathlib.Core.Option.{Option, none, some}
use native.Mathlib.Omega.{arith}
use mathlib.Core.Path.{◌≡◌, subst}
use native.Mathlib.Decide.{dec_lt}

-- `out` is the least index in [lo, hi) at which `P` holds, or nothing where there is none.
abbrev pub IsFirst : (ℕ → Type 0) → ℕ → ℕ → Option ℕ → Type 0
IsFirst P lo hi none = (i : ℕ) → lo ≤ i → i < hi → P i → ⊥
IsFirst P lo hi (some o) = (lo ≤ o) × (o < hi) × P o × ((i : ℕ) → lo ≤ i → i < o → P i → ⊥)

-- What stands before the range fails the test, and joins it.
pub IsFirst-skip :
    (P : ℕ → Type 0) (lo mid hi : ℕ) (o : Option ℕ)
    → lo ≤ mid
    → ((i : ℕ) → lo ≤ i → i < mid → P i → ⊥)
    → IsFirst P mid hi o
    → IsFirst P lo hi o
IsFirst-skip P lo mid hi none le miss h =
    λ i a b p. elim (dec_lt i mid) [ yes lt ↦ miss i a lt p | no ge ↦ h i (omega arith) b p ]
IsFirst-skip P lo mid hi (some o) le miss (a, b, p, h) = (
  omega arith,
  b,
  p,
  λ i a' b' q. elim (dec_lt i mid) [ yes lt ↦ miss i a' lt q | no ge ↦ h i (omega arith) b' q ],
)

-- One round: the test fails at `lo`, and the rest of the range is searched.
pub IsFirst-miss :
    (P : ℕ → Type 0) (lo hi : ℕ) (o : Option ℕ)
    → (P lo → ⊥)
    → IsFirst P (lo + 1) hi o
    → IsFirst P lo hi o
IsFirst-miss P lo hi o miss h =
    IsFirst-skip P lo (lo + 1) hi o (omega arith)
      (λ i a b p. let e : i ≡ lo = omega arith in miss (subst P e p)) h

-- A range has one least index at which a test holds.
pub IsFirst-unique :
    (P : ℕ → Type 0) (lo hi a b : ℕ) → IsFirst P lo hi (some a) → IsFirst P lo hi (some b) → a ≡ b
IsFirst-unique P lo hi a b (la, ha, pa, ma) (lb, hb, pb, mb) = elim (dec_lt a b) [
  | yes lt ↦ absurd (mb a la lt pa)
  | no ge ↦ elim (dec_lt b a) [ yes lt ↦ absurd (ma b lb lt pb) | no ge' ↦ omega arith ]
]
