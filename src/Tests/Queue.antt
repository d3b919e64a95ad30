-- ===== src/Tests/Queue.antt =====
-- A queue of src/queue.c with room for two, from its start to full and back.
use udepot_hopscotch.Base.{List, ℕ, ◌≡◌, refl, none, some, [], ◌∷◌, arith}
use udepot_hopscotch.Queue.{
  Node, Queue, q_init, q_enqueue, q_enqueue_front, q_dequeue, q_dequeue_int,
}
use udepot_hopscotch.Queue.Refine.{Holds, rest}
use udepot_hopscotch.Queue.Spec.{
  enqueue, dequeue, Represents, q_enqueue-Represents, q_dequeue-Represents,
}

abbrev heap : ℕ → Node
heap i = record { d = 0; next = none }

abbrev start : Queue
start = q_init 2 heap

start-Holds : Holds start []
unfolding q_init
start-Holds = record { chain = refl; distinct = tt; last = tt; size = refl; bounded = omega arith }

-- Payload 7 in node 100.
abbrev one : Queue
one = (q_enqueue_front 7 100 start).1

one-Holds : Holds one ((100, 7) ∷ [])
unfolding q_init q_enqueue_front
one-Holds = record {
  chain = (refl, refl, refl);
  distinct = (tt, tt);
  last = refl;
  size = refl;
  bounded = omega arith;
}

one_queued : Represents one ((100, 7) ∷ []) (7 ∷ [])
one_queued = record { holds = one-Holds; contents = refl }

q_enqueue-Represents_example :
    (q' : Queue) × (ns' : List (ℕ × ℕ)) × (q_enqueue 8 200 one
      ≡ some ((enqueue one.m_size 8 (7 ∷ [])).0, q'))
    × Represents q' ns' (enqueue one.m_size 8 (7 ∷ [])).1
q_enqueue-Represents_example =
    q_enqueue-Represents 8 200 one ((100, 7) ∷ []) (7 ∷ []) one_queued (omega arith, tt)

q_dequeue-Represents_example :
    ((q_dequeue one).0 ≡ (dequeue (7 ∷ [])).0)
    × Represents (q_dequeue one).1 (rest ((100, 7) ∷ [])) (dequeue (7 ∷ [])).1
q_dequeue-Represents_example = q_dequeue-Represents one ((100, 7) ∷ []) (7 ∷ []) one_queued

-- The two payloads come out in the order in which they went in.
in_order :
    elim (q_enqueue 8 200 one) [
      | none ↦ none
      | some (b, q) ↦ some ((q_dequeue q).0 ∷ (q_dequeue_int (q_dequeue q).1).0 ∷ [])
    ]
    ≡ some (7 ∷ 8 ∷ [])
unfolding q_enqueue q_init q_enqueue_front q_dequeue
in_order = refl
