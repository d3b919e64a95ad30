-- ===== src/Hopscotch/Table/Free.antt =====
-- `find_free_entry` of src/hopscotch.c: which slot it hands out, and what it moves to make one.
use mathlib.Core.Path.{subst}
use native.Mathlib.Decide.{ℕ_discrete}
use udepot_hopscotch.Base.{
  ℕ, zero, suc, ◌+◌, ◌-◌, ◌^◌, ◌<◌, ◌≤◌, ◌≡◌, refl, ◌⊎◌, inl, inr, Option, none, some, arith,
  Option-cases, update,
}
use udepot_hopscotch.Base.First.{IsFirst}
use udepot_hopscotch.Hopscotch.Table.{
  Table, Entry, slot, home_of, scan_free, make_free, find_free_entry, fill_entry, max_hop,
  pba_invalid,
}
use udepot_hopscotch.Hopscotch.Table.Search.{IsFree, scan_free-IsFirst}

-- The ranges of the bit fields, which every entry is in.
pub record InRange (e : Entry) : Type 0 where
  pub neigh_off : e.neigh_off < 2 ^ 5
  pub key_fp_tag : e.key_fp_tag < 2 ^ 8
  pub kv_size : e.kv_size < 2 ^ 11
  pub pba : e.pba < 2 ^ 40

-- The offsets of `entry` past its own, from its home, and the slot there.
abbrev pub away : Table → ℕ → ℕ → ℕ
away ht c dis = slot (home_of ht c) dis

abbrev pub moved : Table → ℕ → ℕ → Entry
moved ht c dis = fill_entry dis (ht c).key_fp_tag (ht c).kv_size (ht c).pba

-- The slot at `free` was emptied: its entry went to a free slot further along its own hop.
pub record Emptied (ht : Table) (idx free : ℕ) (ht' : Table) (dis : ℕ) : Type 0 where
  pub further : (ht (slot idx free)).neigh_off < dis
  pub near : dis < max_hop
  pub was_free : (ht (away ht (slot idx free) dis)).pba ≡ pba_invalid
  pub table : ht' ≡ update ht (away ht (slot idx free) dis) (moved ht (slot idx free) dis)

-- No entry among the first `n` of the hop can move: every slot past it in its own hop is taken.
abbrev pub IsStuck : Table → ℕ → ℕ → Type 0
IsStuck ht idx n =
    (o d : ℕ)
    → o < n
    → (ht (slot idx o)).neigh_off < d
    → d < max_hop
    → IsFree ht (home_of ht (slot idx o)) d
    → ⊥

-- What `make_free` returns.
abbrev pub MakesFree : Table → ℕ → ℕ → Option (ℕ × Table) → Type 0
MakesFree ht idx n none = IsStuck ht idx n
MakesFree ht idx n (some (free, ht')) = (free < n) × (dis : ℕ) × Emptied ht idx free ht' dis

-- The entry at offset `n` cannot move, and `make_free` goes on below it.
MakesFree-suc :
    (ht : Table) (idx n : ℕ) (o : Option (ℕ × Table))
    → ((d : ℕ)
        → (ht (slot idx n)).neigh_off + 1 ≤ d
        → d < max_hop
        → IsFree ht (home_of ht (slot idx n)) d
        → ⊥)
    → MakesFree ht idx n o
    → MakesFree ht idx (suc n) o
MakesFree-suc ht idx n none full h = λ o d lt past near free. elim (ℕ_discrete o n) [
  | yes e ↦
      full d
        (let past' : (ht (slot idx n)).neigh_off < d =
            subst (λ k. (ht (slot idx k)).neigh_off < d) e past in
          omega arith)
        near (subst (λ k. IsFree ht (home_of ht (slot idx k)) d) e free)
  | no ne ↦ h o d (omega arith) past near free
]
MakesFree-suc ht idx n (some (free, ht')) full (lt, dis, emptied) = (omega arith, dis, emptied)

make_free-MakesFree :
    (n : ℕ) (ht : Table) (idx : ℕ)
    → ((i : ℕ) → InRange (ht i))
    → MakesFree ht idx n (make_free n ht idx)
unfolding make_free
make_free-MakesFree zero ht idx r = λ o d lt. absurd (omega arith)
make_free-MakesFree (suc n) ht idx r =
    elim (Option-cases (scan_free (max_hop - (off + 1)) ht home (off + 1))) [
      | inl e ↦
          rw (e, MakesFree)
            (MakesFree-suc ht idx n _ (subst (IsFirst (IsFree ht home) (off + 1) max_hop) e scan)
              (make_free-MakesFree n ht idx r))
      | inr (d, e) ↦
          let s = subst (IsFirst (IsFree ht home) (off + 1) max_hop) e scan in
          rw (e, MakesFree)
            (
              omega arith,
              d,
              record { further = omega (arith, s.0); near = s.1; was_free = s.2; table = refl },
            )
    ]
  where
    off : ℕ
    off = (ht (slot idx n)).neigh_off

    home : ℕ
    home = home_of ht (slot idx n)

    scan :
        IsFirst
          (IsFree ht home)
          (off + 1)
          max_hop
          (scan_free (max_hop - (off + 1)) ht home (off + 1))
    scan = scan_free-IsFirst _ ht home (off + 1) max_hop (omega (arith, (r (slot idx n)).neigh_off))

-- What `find_free_entry` returns: a slot of the hop that was free, with the table untouched; a slot
-- whose entry has moved away; or -1, with no slot of the hop free and no entry able to move.
abbrev pub FindsFree : Table → ℕ → Option (ℕ × Table) → Type 0
FindsFree ht idx none = ((o : ℕ) → o < max_hop → IsFree ht idx o → ⊥) × IsStuck ht idx max_hop
FindsFree ht idx (some (free, ht')) =
    (free < max_hop)
    × ((IsFree ht idx free × (ht' ≡ ht))
        ⊎ ((((o : ℕ) → o < max_hop → IsFree ht idx o → ⊥))
            × ((dis : ℕ) × Emptied ht idx free ht' dis)))

FindsFree-of-MakesFree :
    (ht : Table) (idx : ℕ) (o : Option (ℕ × Table))
    → ((i : ℕ) → i < max_hop → IsFree ht idx i → ⊥)
    → MakesFree ht idx max_hop o
    → FindsFree ht idx o
FindsFree-of-MakesFree ht idx none full h = (full, h)
FindsFree-of-MakesFree ht idx (some (free, ht')) full (lt, dis, emptied) =
    (lt, inr (full, (dis, emptied)))

-- `find_free_entry` on a table whose entries are in the ranges of their bit fields.
pub find_free_entry-FindsFree :
    (ht : Table) (idx : ℕ) → ((i : ℕ) → InRange (ht i)) → FindsFree ht idx (find_free_entry ht idx)
unfolding find_free_entry
find_free_entry-FindsFree ht idx r = elim (Option-cases (scan_free max_hop ht idx 0)) [
  | inl e ↦
      rw (e, FindsFree)
        (FindsFree-of-MakesFree ht idx _
          (λ i lt. subst (IsFirst (IsFree ht idx) 0 max_hop) e scan i (omega arith) lt)
          (make_free-MakesFree max_hop ht idx r))
  | inr (o, e) ↦
      let s = subst (IsFirst (IsFree ht idx) 0 max_hop) e scan in
      rw (e, FindsFree) (s.1, inl (s.2, refl))
]
  where
    scan : IsFirst (IsFree ht idx) 0 max_hop (scan_free max_hop ht idx 0)
    scan = scan_free-IsFirst max_hop ht idx 0 max_hop refl
