-- ===== src/Hopscotch/Table/Search.antt =====
-- What the two searches of src/hopscotch.c find: the first slot that passes the test, within the hop.
use udepot_hopscotch.Base.{
  ℕ, zero, suc, ◌+◌, ◌-◌, ◌≤◌, ◌≡◌, inl, inr, arith, ◌==◌, Bool-cases, ==→ne, ==_iff,
}
use udepot_hopscotch.Base.First.{IsFirst, IsFirst-miss}
use udepot_hopscotch.Hopscotch.Table.{
  Table, slot, scan_tag, find_matching_tag, scan_free, max_hop, pba_invalid,
}

-- The entry at an offset from `idx` has the tag, or is free.
abbrev pub HasTag : Table → ℕ → ℕ → ℕ → Type 0
HasTag ht idx tag o = (ht (slot idx o)).key_fp_tag ≡ tag

abbrev pub IsFree : Table → ℕ → ℕ → Type 0
IsFree ht idx o = (ht (slot idx o)).pba ≡ pba_invalid

scan_tag-IsFirst :
    (n : ℕ) (ht : Table) (idx offset tag hi : ℕ)
    → offset + n ≡ hi
    → IsFirst (HasTag ht idx tag) offset hi (scan_tag n ht idx offset tag)
unfolding scan_tag
scan_tag-IsFirst zero ht idx offset tag hi e = λ i le lt p. omega arith
scan_tag-IsFirst (suc n) ht idx offset tag hi e =
    elim (Bool-cases ((ht (slot idx offset)).key_fp_tag == tag)) [
      | inl hit ↦ rw hit (omega arith, omega arith, (==_iff _ _).0 hit, λ i le lt p. omega arith)
      | inr miss ↦ rw miss (
          IsFirst-miss (HasTag ht idx tag) offset hi _ (==→ne _ _ miss)
            (scan_tag-IsFirst n ht idx (offset + 1) tag hi (omega arith)))
    ]

-- `find_matching_tag` returns the least offset from `offset` on, below the hop, whose entry has the
-- tag, and -1 exactly where no entry there has it.
pub find_matching_tag-IsFirst :
    (ht : Table) (idx offset tag : ℕ)
    → offset ≤ max_hop
    → IsFirst (HasTag ht idx tag) offset max_hop (find_matching_tag ht idx offset tag)
unfolding find_matching_tag
find_matching_tag-IsFirst ht idx offset tag h =
    scan_tag-IsFirst (max_hop - offset) ht idx offset tag max_hop (omega arith)

pub scan_free-IsFirst :
    (n : ℕ) (ht : Table) (idx offset hi : ℕ)
    → offset + n ≡ hi
    → IsFirst (IsFree ht idx) offset hi (scan_free n ht idx offset)
unfolding scan_free
scan_free-IsFirst zero ht idx offset hi e = λ i le lt p. omega arith
scan_free-IsFirst (suc n) ht idx offset hi e =
    elim (Bool-cases ((ht (slot idx offset)).pba == pba_invalid)) [
      | inl hit ↦ rw hit (omega arith, omega arith, (==_iff _ _).0 hit, λ i le lt p. omega arith)
      | inr miss ↦ rw miss (
          IsFirst-miss (IsFree ht idx) offset hi _ (==→ne _ _ miss)
            (scan_free-IsFirst n ht idx (offset + 1) hi (omega arith)))
    ]
