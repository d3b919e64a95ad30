-- ===== src/Queue/Spec.antt =====
-- What src/queue.c promises: a bounded queue of pointers, with NULL, which is 0, for an empty one.
use udepot_hopscotch.Base.{
  ℕ, ◌≡◌, refl, ◌∙◌, ap, sym, inl, inr, Bool, true, false, some, List, [], ◌∷◌, ◌++◌, arith, length,
  ◌==◌, if◌then◌else◌,
}
use udepot_hopscotch.Queue.{Queue, q_enqueue, q_dequeue}
use udepot_hopscotch.Queue.Refine.{Away, Holds, rest, first, q_dequeue-Holds}
use udepot_hopscotch.Queue.Append.{q_enqueue-Holds}

unfoldable pub enqueue : ℕ → ℕ → List ℕ → Bool × List ℕ
enqueue m_size req xs = if length xs == m_size then (false, xs) else (true, xs ++ req ∷ [])

unfoldable pub dequeue : List ℕ → ℕ × List ℕ
dequeue [] = (0, [])
dequeue (x ∷ xs) = (x, xs)

abbrev pub payloads : List (ℕ × ℕ) → List ℕ
payloads [] = []
payloads ((a, v) ∷ ns) = v ∷ payloads ns

payloads-append :
    (ns : List (ℕ × ℕ)) (a v : ℕ) → payloads (ns ++ (a, v) ∷ []) ≡ payloads ns ++ v ∷ []
payloads-append [] a v = refl
payloads-append ((b, w) ∷ ns) a v = ap (λ l. w ∷ l) (payloads-append ns a v)

length-payloads : (ns : List (ℕ × ℕ)) → length (payloads ns) ≡ length ns
length-payloads [] = refl
length-payloads ((b, w) ∷ ns) = omega (arith, length-payloads ns)

-- The queue stands for a list of pointers.
pub record Represents (q : Queue) (ns : List (ℕ × ℕ)) (xs : List ℕ) : Type 0 where
  pub holds : Holds q ns
  pub contents : payloads ns ≡ xs

-- An enqueued pointer is put in as the bounded queue of `q->m_size` pointers does it: `q_enqueue`,
-- with a node that is not in the queue, reads no null pointer, returns what `enqueue` returns, and
-- stands for what `enqueue` leaves.
pub q_enqueue-Represents :
    (req new_node : ℕ) (q : Queue) (ns : List (ℕ × ℕ)) (xs : List ℕ)
    → Represents q ns xs
    → Away new_node ns
    → (q' : Queue) × (ns' : List (ℕ × ℕ)) × (q_enqueue req new_node q
        ≡ some ((enqueue q.m_size req xs).0, q'))
      × Represents q' ns' (enqueue q.m_size req xs).1
unfolding enqueue
q_enqueue-Represents req new_node q ns xs r away =
    let same : length xs ≡ q.size =
      ap length (sym r.contents) ∙ length-payloads ns ∙ sym (r.holds).size in
    elim (q_enqueue-Holds req new_node q ns r.holds away) [
      | inl (full, e) ↦
          let is_full : (length xs == q.m_size) ≡ true = ground arith in rw is_full (q, ns, e, r)
      | inr (room, (q', e, h)) ↦
          let has_room : (length xs == q.m_size) ≡ false = ground arith in
          rw has_room (
            q',
            ns ++ (new_node, req) ∷ [],
            e,
            record {
              holds = h;
              contents = payloads-append ns new_node req ∙ ap (λ l. l ++ req ∷ []) r.contents;
            },
          )
    ]

-- `q_dequeue` returns what `dequeue` returns, and the queue stands for what is left.
pub q_dequeue-Represents :
    (q : Queue) (ns : List (ℕ × ℕ)) (xs : List ℕ)
    → Represents q ns xs
    → ((q_dequeue q).0 ≡ (dequeue xs).0) × Represents (q_dequeue q).1 (rest ns) (dequeue xs).1
unfolding dequeue
q_dequeue-Represents q ns xs r =
    let (h, e) = q_dequeue-Holds q ns r.holds in go ns e h xs r.contents
  where
    go :
        (ns : List (ℕ × ℕ))
        → (q_dequeue q).0 ≡ first ns
        → Holds (q_dequeue q).1 (rest ns)
        → (xs : List ℕ) → payloads ns ≡ xs
        → ((q_dequeue q).0 ≡ (dequeue xs).0) × Represents (q_dequeue q).1 (rest ns) (dequeue xs).1
    go [] e h [] c = (e, record { holds = h; contents = refl })
    go [] e h (x ∷ xs) c = cc
    go ((a, v) ∷ ns) e h [] c = cc
    go ((a, v) ∷ ns) e h (x ∷ xs) c = (e ∙ cc, record { holds = h; contents = cc })
