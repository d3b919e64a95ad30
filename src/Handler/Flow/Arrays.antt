-- ===== src/Handler/Flow/Arrays.antt =====
-- The arrays that the requests of src/handler.c keep their keys in, over any run.
use mathlib.Core.Path.{subst}
use mathlib.Core.Option.{some-injective}
use udepot_hopscotch.Base.{
  ℕ, ◌≡◌, ◌∙◌, sym, ap, inl, inr, Bool, Bool-cases, Option, Option-cases, some, none, List, arith,
  length, ◌==◌, update,
}
use udepot_hopscotch.CondLock.{cl_grap}
use udepot_hopscotch.Queue.Spec.{dequeue}
use udepot_hopscotch.Handler.{
  Handler, Slot, add_request_info, prepare, get_next_request, net_end_req, retry_req_to_hlr,
  forward_req_to_hlr,
}
use udepot_hopscotch.Handler.Flow.{
  System, Step, Reach, make, forward, take, end, retry, start, next,
}
use udepot_hopscotch.Handler.Prepare.{made, made_req, array_made, array_update}

-- The requests have the array of `struct key_struct`.
abbrev pub HasArrays : (ℕ → Slot) → Type 0
HasArrays req = (p : ℕ) → length ((req p).key).key ≡ 256

info-array : (hash : List ℕ → ℕ × ℕ) (r : Slot) → ((add_request_info hash r).key).key ≡ (r.key).key
unfolding add_request_info
info-array hash r = ground arith

prepare-HasArrays :
    (hash : List ℕ → ℕ × ℕ) (req : ℕ → Slot) (r : ℕ)
    → HasArrays req
    → HasArrays (prepare hash req r)
prepare-HasArrays hash req r v = choose (req r).value
  where
    completed : Slot
    completed = add_request_info hash (req r)

    choose :
        (o : Option (List ℕ)) → HasArrays (elim o [ none ↦ update req r completed | some x ↦ req ])
    choose none p =
        array_update req r completed p
          (ap (λ (k : List ℕ). length k) (info-array hash (req r)) ∙ v r) (v p)
    choose (some x) p = v p

forward_req :
    (hlr : Handler) (p : ℕ) (b : Bool) (h : Handler)
    → forward_req_to_hlr hlr p ≡ some (b, h)
    → h.req ≡ hlr.req
unfolding forward_req_to_hlr
forward_req hlr p b h e = elim (Option-cases (cl_grap hlr.flying)) [
  | inl q ↦
      let bad : ◌≡◌ {A = Option (Bool × Handler)} none (some (b, h)) =
        rw (forward_req_to_hlr, q) at e in
      cc
  | inr (l, q) ↦
      let both = some-injective _ _ (rw (forward_req_to_hlr, q) at e) in
      ap (λ (r : Bool × Handler). (r.1).req) (sym both)
]

next-HasArrays :
    (hash : List ℕ → ℕ × ℕ) (hlr : Handler)
    → HasArrays hlr.req
    → HasArrays ((get_next_request hash hlr).1).req
unfolding get_next_request
next-HasArrays hash hlr v q = elim (Bool-cases ((dequeue hlr.retry_q).0 == 0)) [
  | inr n ↦ rw (get_next_request, n) (v q)
  | inl y ↦ elim (Bool-cases ((dequeue hlr.req_q).0 == 0)) [
    | inl z ↦ rw (get_next_request, y, z) (v q)
    | inr n ↦ rw (get_next_request, y, n) (prepare-HasArrays hash hlr.req (dequeue hlr.req_q).0 v q)
  ]
]

Step-HasArrays :
    (hash : List ℕ → ℕ × ℕ) {s t : System}
    → Step hash s t
    → HasArrays (s.hlr).req
    → HasArrays (t.hlr).req
unfolding net_end_req retry_req_to_hlr
Step-HasArrays hash (make s nr sock p h m e) v =
    subst HasArrays (sym (made_req s.hlr nr sock p h e)) (λ q.
      array_update (s.hlr).req p (made ((s.hlr).req p) nr sock) q
        (array_made ((s.hlr).req p) nr sock (v p)) (v q))
Step-HasArrays hash (forward s p b h m e) v = subst HasArrays (sym (forward_req s.hlr p b h e)) v
Step-HasArrays hash (take s ne) v = next-HasArrays hash s.hlr v
Step-HasArrays hash (end s p xs ys e) v = v
Step-HasArrays hash (retry s p xs ys e) v = v

pub Reach-HasArrays :
    (hash : List ℕ → ℕ × ℕ) {s t : System}
    → Reach hash s t
    → HasArrays (s.hlr).req
    → HasArrays (t.hlr).req
Reach-HasArrays hash (start s) v = v
Reach-HasArrays hash (next s t u r x) v = Step-HasArrays hash x (Reach-HasArrays hash r v)
