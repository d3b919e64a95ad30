-- ===== src/Queue/Append.antt =====
-- `q_enqueue` of src/queue.c puts a payload last.
use mathlib.Core.Path.{subst}
use mathlib.Core.Option.{some-injective}
use udepot_hopscotch.Base.{
  ℕ, ◌+◌, ◌<◌, ◌≡◌, ◌≢◌, refl, ◌∙◌, sym, ap, ◌⊎◌, inl, inr, true, false, Option, none, some, List,
  [], ◌∷◌, ◌++◌, arith, length, ◌==◌, update, Bool-cases, Option-cases, ==→ne,
}
use udepot_hopscotch.Queue.{Node, Queue, link_tail, first_node, q_enqueue}
use udepot_hopscotch.Queue.Refine.{Chain, Away, Distinct, IsLast, Holds}

-- The last node is one of the chain.
last_ne :
    (p t v : ℕ) (a : ℕ) (ns : List (ℕ × ℕ))
    → Away p ((a, v) ∷ ns)
    → IsLast (some t) ((a, v) ∷ ns)
    → p ≢ t
last_ne p t v a [] away l e = away.0 (e ∙ some-injective _ _ l)
last_ne p t v a ((b, w) ∷ ns) away l e = last_ne p t w b ns away.1 l e

-- The heap after `new_node` was filled and linked behind `t`.
abbrev linked : (ℕ → Node) → ℕ → ℕ → ℕ → ℕ → Node
linked node p t req =
    let heap = update node p (record { d = req; next = none }) in
    update heap t (record (heap t) { next = some p })

linked_ne : (node : ℕ → Node) (p t req a : ℕ) → a ≢ p → a ≢ t → linked node p t req a ≡ node a
linked_ne node p t req a ne ne' = ground arith

linked_tail :
    (node : ℕ → Node) (p t req : ℕ)
    → t ≢ p
    → linked node p t req t ≡ record (node t) { next = some p }
linked_tail node p t req ne = ground arith

linked_new :
    (node : ℕ → Node) (p t req : ℕ)
    → t ≢ p
    → linked node p t req p ≡ record { d = req; next = none }
linked_new node p t req ne = ground arith

Chain-append :
    (node : ℕ → Node) (p t req : ℕ) (h : Option ℕ) (a v : ℕ) (ns : List (ℕ × ℕ))
    → Away p ((a, v) ∷ ns)
    → Distinct ((a, v) ∷ ns)
    → IsLast (some t) ((a, v) ∷ ns)
    → Chain node h ((a, v) ∷ ns)
    → Chain (linked node p t req) h (((a, v) ∷ ns) ++ (p, req) ∷ [])
Chain-append node p t req h a v [] away apart l (at, d, c) =
    let ta : t ≡ a = some-injective _ _ l in
    let tp : t ≢ p = λ e. away.0 (sym e ∙ ta) in
    let here = ap (linked node p t req) (sym ta) ∙ linked_tail node p t req tp in
    let new = linked_new node p t req tp in
    (
      at,
      ap (λ (x : Node). x.d) here ∙ ap (λ i. (node i).d) ta ∙ d,
      (ap (λ (x : Node). x.next) here, ap (λ (x : Node). x.d) new, ap (λ (x : Node). x.next) new),
    )
Chain-append node p t req h a v ((b, w) ∷ ns) away apart l (at, d, c) =
    let same = linked_ne node p t req a (λ e. away.0 (sym e)) (last_ne a t w b ns apart.0 l) in
    (
      at,
      ap (λ (x : Node). x.d) same ∙ d,
      subst (λ x. Chain (linked node p t req) x (((b, w) ∷ ns) ++ (p, req) ∷ []))
          (ap (λ (x : Node). x.next) (sym same))
          (Chain-append node p t req (node a).next b w ns away.1 apart.1 l c),
    )

IsLast-append : (p v : ℕ) (ns : List (ℕ × ℕ)) → IsLast (some p) (ns ++ (p, v) ∷ [])
IsLast-append p v [] = refl
IsLast-append p v ((a, w) ∷ []) = refl
IsLast-append p v ((a, w) ∷ n ∷ ns) = IsLast-append p v (n ∷ ns)

Away-append : (a p v : ℕ) (ns : List (ℕ × ℕ)) → Away a ns → a ≢ p → Away a (ns ++ (p, v) ∷ [])
Away-append a p v [] h ne = (ne, tt)
Away-append a p v ((b, w) ∷ ns) h ne = (h.0, Away-append a p v ns h.1 ne)

Distinct-append :
    (p v : ℕ) (ns : List (ℕ × ℕ)) → Distinct ns → Away p ns → Distinct (ns ++ (p, v) ∷ [])
Distinct-append p v [] h away = (tt, tt)
Distinct-append p v ((a, w) ∷ ns) h away =
    (Away-append a p v ns h.0 (λ e. away.0 (sym e)), Distinct-append p v ns h.1 away.1)

length-append : (p v : ℕ) (ns : List (ℕ × ℕ)) → length (ns ++ (p, v) ∷ []) ≡ length ns + 1
length-append p v [] = refl
length-append p v (n ∷ ns) = omega (arith, length-append p v ns)

-- What `q_enqueue` makes of a queue with room.
abbrev Added : ℕ → ℕ → Queue → List (ℕ × ℕ) → Type 0
Added req new_node q ns =
    (q' : Queue) × (q_enqueue req new_node q ≡ some (true, q'))
    × Holds q' (ns ++ (new_node, req) ∷ [])

added :
    (req new_node : ℕ) (q : Queue) (ns : List (ℕ × ℕ))
    → Holds q ns
    → Away new_node ns
    → (q.size == q.m_size) ≡ false
    → Added req new_node q ns
unfolding q_enqueue
added req new_node q [] h away room =
    let none_yet : (q.size == 0) ≡ true = ground (arith, h.size) in
    (
      first_node q new_node (record { d = req; next = none }),
      rw (q_enqueue, room, none_yet),
      record {
        chain = (refl, ground arith, ground arith);
        distinct = (tt, tt);
        last = refl;
        size = omega (arith, h.size);
        bounded = omega (arith, h.bounded, ==→ne _ _ room);
      },
    )
added req new_node q ((a, v) ∷ ns) h away room =
    let some_node : (q.size == 0) ≡ false = ground (arith, h.size) in
    elim (Option-cases q.tail) [
      | inl e ↦ absurd (no_tail a v ns (subst (λ t. IsLast t ((a, v) ∷ ns)) e h.last))
      | inr (t, e) ↦ (
        record q { node = linked q.node new_node t req; tail = some new_node; size = q.size + 1 },
        rw (q_enqueue, room, some_node, link_tail, e),
        record {
          chain =
              Chain-append q.node new_node t req q.head a v ns away h.distinct
                (subst (λ t. IsLast t ((a, v) ∷ ns)) e h.last) h.chain;
          distinct = Distinct-append new_node req ((a, v) ∷ ns) h.distinct away;
          last = IsLast-append new_node req ((a, v) ∷ ns);
          size = omega (arith, h.size, length-append new_node req ((a, v) ∷ ns));
          bounded = omega (arith, h.bounded, ==→ne _ _ room);
        },
      )
    ]
  where
    no_tail : (a v : ℕ) (ns : List (ℕ × ℕ)) → IsLast none ((a, v) ∷ ns) → ⊥
    no_tail a v [] l = cc
    no_tail a v ((b, w) ∷ ns) l = no_tail b w ns l

-- `q_enqueue`, with a node that is not in the queue, never reads a null pointer: on a queue with room
-- it puts the payload last, and on a full one it returns false and changes nothing.
pub q_enqueue-Holds :
    (req new_node : ℕ) (q : Queue) (ns : List (ℕ × ℕ))
    → Holds q ns
    → Away new_node ns
    → ((q.size ≡ q.m_size) × (q_enqueue req new_node q ≡ some (false, q)))
      ⊎ ((q.size < q.m_size)
          × ((q' : Queue) × (q_enqueue req new_node q ≡ some (true, q'))
              × Holds q' (ns ++ (new_node, req) ∷ [])))
unfolding q_enqueue
q_enqueue-Holds req new_node q ns h away = elim (Bool-cases (q.size == q.m_size)) [
  | inl full ↦ inl (ground arith, rw (q_enqueue, full))
  | inr room ↦ inr (omega (arith, h.bounded, ==→ne _ _ room), added req new_node q ns h away room)
]
