-- ===== src/Queue/Refine.antt =====
-- The queue of src/queue.c holds a list of payloads, and its operations are those of a bounded
-- double-ended queue.
use mathlib.Core.Path.{subst}
use udepot_hopscotch.Base.{
  ℕ, ◌≤◌, ◌<◌, ◌≡◌, ◌≢◌, refl, sym, ap, ◌⊎◌, inl, inr, true, false, Option, none, some, List, [],
  ◌∷◌, arith, length, ◌==◌, update, Bool-cases, ==→ne,
}
use udepot_hopscotch.Queue.{Node, Queue, q_enqueue_front, q_dequeue}

-- The chain from a pointer: the addresses of its nodes, each with its payload.
abbrev pub Chain : (ℕ → Node) → Option ℕ → List (ℕ × ℕ) → Type 0
Chain node h [] = h ≡ none
Chain node h ((a, v) ∷ ns) = (h ≡ some a) × ((node a).d ≡ v) × Chain node (node a).next ns

-- No node of the chain is at the address.
abbrev pub Away : ℕ → List (ℕ × ℕ) → Type 0
Away p [] = Unit {0}
Away p ((a, v) ∷ ns) = (p ≢ a) × Away p ns

abbrev pub Distinct : List (ℕ × ℕ) → Type 0
Distinct [] = Unit {0}
Distinct ((a, v) ∷ ns) = Away a ns × Distinct ns

-- The address of the last node.
abbrev pub IsLast : Option ℕ → List (ℕ × ℕ) → Type 0
IsLast t [] = Unit {0}
IsLast t ((a, v) ∷ []) = t ≡ some a
IsLast t ((a, v) ∷ n ∷ ns) = IsLast t (n ∷ ns)

-- The queue is in order, with these nodes.
pub record Holds (q : Queue) (ns : List (ℕ × ℕ)) : Type 0 where
  pub chain : Chain q.node q.head ns
  pub distinct : Distinct ns
  pub last : IsLast q.tail ns
  pub size : q.size ≡ length ns
  pub bounded : q.size ≤ q.m_size

-- A write at an address away from the chain does not change it.
Chain-update :
    (node : ℕ → Node) (p : ℕ) (x : Node) (h : Option ℕ) (ns : List (ℕ × ℕ))
    → Away p ns
    → Chain node h ns
    → Chain (update node p x) h ns
Chain-update node p x h [] away c = c
Chain-update node p x h ((a, v) ∷ ns) (ne, away) (at, d, c) =
    let same : update node p x a ≡ node a = ground arith in
    rw same (at, d, Chain-update node p x (node a).next ns away c)

-- What is left of the nodes, and the first payload, or NULL.
abbrev pub rest : List (ℕ × ℕ) → List (ℕ × ℕ)
rest [] = []
rest (n ∷ ns) = ns

abbrev pub first : List (ℕ × ℕ) → ℕ
first [] = 0
first ((a, v) ∷ ns) = v

IsLast-rest : (t : Option ℕ) (n : ℕ × ℕ) (ns : List (ℕ × ℕ)) → IsLast t (n ∷ ns) → IsLast t ns
IsLast-rest t n [] l = tt
IsLast-rest t (a, v) (m ∷ ns) l = l

-- `q_dequeue` takes the first payload off, and returns NULL on an empty queue.
pub q_dequeue-Holds :
    (q : Queue) (ns : List (ℕ × ℕ))
    → Holds q ns
    → Holds (q_dequeue q).1 (rest ns) × ((q_dequeue q).0 ≡ first ns)
unfolding q_dequeue
q_dequeue-Holds q [] h = rw (q_dequeue, h.chain) (h, refl)
q_dequeue-Holds q ((a, v) ∷ ns) h =
    let at = h.chain.0 in
    let some_node : (q.size == 0) ≡ false = ground (arith, h.size) in
    rw (q_dequeue, at, some_node)
      (
        record {
          chain = h.chain.2;
          distinct = h.distinct.1;
          last = IsLast-rest q.tail (a, v) ns h.last;
          size = omega (arith, h.size);
          bounded = omega (arith, h.bounded);
        },
        h.chain.1,
      )

front_added :
    (req new_node : ℕ) (q : Queue) (ns : List (ℕ × ℕ))
    → Holds q ns
    → Away new_node ns
    → (q.size == q.m_size) ≡ false
    → ((q_enqueue_front req new_node q).0 ≡ true)
      × Holds (q_enqueue_front req new_node q).1 ((new_node, req) ∷ ns)
unfolding q_enqueue_front
front_added req new_node q [] h away room =
    let none_yet : (q.size == 0) ≡ true = ground (arith, h.size) in
    rw (q_enqueue_front, room, none_yet)
      (
        refl,
        record {
          chain = (refl, ground arith, ground arith);
          distinct = (tt, tt);
          last = refl;
          size = omega (arith, h.size);
          bounded = omega (arith, h.bounded, ==→ne _ _ room);
        },
      )
front_added req new_node q (n ∷ ns) h away room =
    let some_node : (q.size == 0) ≡ false = ground (arith, h.size) in
    let here : update q.node new_node (record { d = req; next = q.head }) new_node
        ≡ record { d = req; next = q.head } =
      ground arith in
    rw (q_enqueue_front, room, some_node)
      (
        refl,
        record {
          chain = (
            refl,
            ap (λ x. x.d) here,
            subst
                (λ x. Chain (update q.node new_node (record { d = req; next = q.head })) x (n ∷ ns))
                (ap (λ x. x.next) (sym here))
                (Chain-update q.node new_node _ q.head (n ∷ ns) away h.chain),
          );
          distinct = (away, h.distinct);
          last = h.last;
          size = omega (arith, h.size);
          bounded = omega (arith, h.bounded, ==→ne _ _ room);
        },
      )

-- `q_enqueue_front` on a queue with room, with a node that is not in it, puts the payload first; on a
-- full queue it returns false and changes nothing.
pub q_enqueue_front-Holds :
    (req new_node : ℕ) (q : Queue) (ns : List (ℕ × ℕ))
    → Holds q ns
    → Away new_node ns
    → ((q.size ≡ q.m_size) × (q_enqueue_front req new_node q ≡ (false, q)))
      ⊎ ((q.size < q.m_size)
          × ((q_enqueue_front req new_node q).0 ≡ true)
          × Holds (q_enqueue_front req new_node q).1 ((new_node, req) ∷ ns))
unfolding q_enqueue_front
q_enqueue_front-Holds req new_node q ns h away = elim (Bool-cases (q.size == q.m_size)) [
  | inl full ↦ inl (ground arith, rw (q_enqueue_front, full))
  | inr room ↦
      let added = front_added req new_node q ns h away room in
      inr (omega (arith, h.bounded, ==→ne _ _ room), added.0, added.1)
]
