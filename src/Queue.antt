-- ===== src/Queue.antt =====
-- The bounded queue of src/queue.c with include/queue.h: a linked list on a heap of nodes, with
-- pointers to its head and its tail. Each operation runs under the queue's lock, as one step.
pub mod Refine
pub mod Append
pub mod Spec
use udepot_hopscotch.Base.{
  ℕ, zero, suc, ◌+◌, ◌-◌, Bool, true, false, Option, none, some, ◌==◌, if◌then◌else◌, update,
}

-- `struct node`: the payload, which is a pointer or an `int`, and the next node. `prev` is never used.
pub record Node : Type 0 where
  pub d : ℕ
  pub next : Option ℕ

-- `struct queue` with the heap that its nodes are on. `none` is the null pointer, as the payload 0 is.
pub record Queue : Type 0 where
  pub size : ℕ
  pub m_size : ℕ
  pub head : Option ℕ
  pub tail : Option ℕ
  pub node : ℕ → Node

unfoldable pub q_init : ℕ → (ℕ → Node) → Queue
q_init qsize heap = record { size = 0; m_size = qsize; head = none; tail = none; node = heap }

-- `q->tail->next=new_node; q->tail=new_node`: a null `tail` is a fault.
pub link_tail : Queue → ℕ → Node → Option (Bool × Queue)
link_tail q new_node node = elim q.tail [
  | none ↦ none
  | some t ↦
      let heap = update q.node new_node node in
      some (
        true,
        record q {
          node = update heap t (record (heap t) { next = some new_node });
          tail = some new_node;
          size = q.size + 1;
        },
      )
]

-- The first node of an empty queue.
abbrev pub first_node : Queue → ℕ → Node → Queue
first_node q new_node node = record q {
  node = update q.node new_node node;
  head = some new_node;
  tail = some new_node;
  size = q.size + 1;
}

-- `new_node` is what `malloc` returns.
-- `none` is a fault.
unfoldable pub q_enqueue : ℕ → ℕ → Queue → Option (Bool × Queue)
unfolding link_tail
q_enqueue req new_node q =
    let node : Node = record { d = req; next = none } in
    if q.size == q.m_size
    then some (false, q)
    else if q.size == 0
    then some (true, first_node q new_node node)
    else link_tail q new_node node

unfoldable pub q_enqueue_front : ℕ → ℕ → Queue → Bool × Queue
q_enqueue_front req new_node q =
    if q.size == q.m_size
    then (false, q)
    else if q.size == 0
    then (true, first_node q new_node (record { d = req; next = none }))
    else (
      true,
      record q {
        node = update q.node new_node (record { d = req; next = q.head });
        head = some new_node;
        size = q.size + 1;
      },
    )

-- `tail` is left as it is, and the node is free for `malloc` again.
unfoldable pub q_dequeue : Queue → ℕ × Queue
q_dequeue q = elim q.head [
  | none ↦ (0, q)
  | some h ↦
      if q.size == 0
      then (0, q)
      else ((q.node h).d, record q { head = (q.node h).next; size = q.size - 1 })
]

pub q_pick : Queue → ℕ
q_pick q = elim q.head [ none ↦ 0 | some h ↦ if q.size == 0 then 0 else (q.node h).d ]

-- The same code on the other arm of the union.
abbrev pub q_enqueue_int : ℕ → ℕ → Queue → Option (Bool × Queue)
q_enqueue_int req new_node q = q_enqueue req new_node q

abbrev pub q_dequeue_int : Queue → ℕ × Queue
q_dequeue_int q = q_dequeue q
