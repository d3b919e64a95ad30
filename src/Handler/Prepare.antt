-- ===== src/Handler/Prepare.antt =====
-- A request of src/request.c from the message that asks for it to the index: what
-- `make_request_from_netreq` and `add_request_info` leave in it.
use mathlib.Core.Path.{subst}
use mathlib.Core.Option.{some-injective}
use udepot_hopscotch.Base.{
  ℕ, zero, suc, ◌≤◌, ◌≡◌, refl, ◌∙◌, sym, ap, inl, inr, false, Option, none, some, List, [], ◌∷◌,
  arith, length, length-splice, take, splice, replicate, ◌==◌, Bool-cases, update,
}
use udepot_hopscotch.Request.{ReqType}
use udepot_hopscotch.Queue.Spec.{dequeue}
use udepot_hopscotch.Handler.{
  Handler, NetReq, Slot, value_len_max, make_request_from_netreq, add_request_info,
}

-- The bytes of a key that was copied to the front of a larger array.
pub take-splice :
    {A : Type 0} (n : ℕ) (dst src : List A)
    → n ≤ length dst
    → n ≤ length src
    → take n (splice dst 0 (take n src)) ≡ take n src
take-splice zero dst src a b = refl
take-splice (suc n) [] src a b = absurd (omega arith)
take-splice (suc n) (x ∷ xs) [] a b = absurd (omega arith)
take-splice (suc n) (x ∷ xs) (y ∷ ys) a b =
    ap (λ t. y ∷ t) (take-splice n xs ys (omega arith) (omega arith))

-- The buffer that a request of a type comes with.
abbrev pub buffer_for : ReqType → ℕ → Option (List ℕ)
buffer_for ReqType.get kv_size = some (replicate value_len_max 0)
buffer_for ReqType.set kv_size = some (replicate kv_size 0)
buffer_for _ kv_size = none

-- The request is the one that the message asks for, fresh for the index: its key with the key's hash,
-- no parameters, and a buffer of zeros where its type needs one.
pub record IsPrepared (hash : List ℕ → ℕ × ℕ) (nr : NetReq) (sock : ℕ) (r : Slot) : Type 0 where
  pub type : r.type ≡ nr.type
  pub seq_num : r.seq_num ≡ nr.seq_num
  pub len : (r.key).len ≡ nr.keylen
  pub key : take nr.keylen (r.key).key ≡ take nr.keylen nr.key
  pub hash_low : (r.key).hash_low ≡ (hash (take nr.keylen nr.key)).0
  pub hash_high : (r.key).hash_high ≡ (hash (take nr.keylen nr.key)).1
  pub no_params : r.has_params ≡ false
  pub buffer : r.value ≡ buffer_for nr.type nr.kv_size
  pub cl_sock : r.cl_sock ≡ sock

-- The request that `make_request_from_netreq` fills, over the one that was in its place.
abbrev pub made : Slot → NetReq → ℕ → Slot
made old nr s = record old {
  type = nr.type;
  seq_num = nr.seq_num;
  key = record (old.key) { key = splice (old.key).key 0 (take nr.keylen nr.key); len = nr.keylen };
  value_len = nr.kv_size;
  value = none;
  cl_sock = s;
}

made-IsPrepared :
    (hash : List ℕ → ℕ × ℕ) (old : Slot) (t : ReqType) (nr : NetReq) (s : ℕ)
    → nr.keylen ≤ length (old.key).key
    → nr.keylen ≤ length nr.key
    → nr.type ≡ t
    → IsPrepared hash nr s (add_request_info hash (made old nr s))
unfolding add_request_info
made-IsPrepared hash old t nr s a b e =
    let bytes = take-splice nr.keylen (old.key).key nr.key a b in
    let low = ap (λ l. (hash l).0) bytes in
    let high = ap (λ l. (hash l).1) bytes in ground (arith, e, bytes, low, high)

-- What `make_request_from_netreq` does to the requests.
pub made_req :
    (hlr : Handler) (nr : NetReq) (fd p : ℕ) (h : Handler)
    → make_request_from_netreq hlr nr fd ≡ some (p, h)
    → h.req ≡ update hlr.req p (made (hlr.req p) nr fd)
unfolding make_request_from_netreq
made_req hlr nr fd p h e = elim (Bool-cases ((dequeue hlr.req_pool).0 == 0)) [
  | inl z ↦
      let bad : ◌≡◌ {A = Option (ℕ × Handler)} none (some (p, h)) =
        rw (make_request_from_netreq, z) at e in
      cc
  | inr nz ↦
      let both = some-injective _ _ (rw (make_request_from_netreq, nz) at e) in
      let at = ap (λ (r : ℕ × Handler). r.0) both in
      let is = ap (λ (r : ℕ × Handler). r.1) both in
      ap (λ (x : Handler). x.req) (sym is) ∙ ap (λ k. update hlr.req k (made (hlr.req k) nr fd)) at
]

made_at :
    (hlr : Handler) (nr : NetReq) (s p : ℕ) (h : Handler)
    → make_request_from_netreq hlr nr s ≡ some (p, h)
    → h.req p ≡ made (hlr.req p) nr s
made_at hlr nr s p h e =
    ap (λ (f : ℕ → Slot). f p) (made_req hlr nr s p h e)
    ∙ update_self hlr.req p (made (hlr.req p) nr s)
  where
    update_self : (f : ℕ → Slot) (q : ℕ) (r : Slot) → update f q r q ≡ r
    update_self f q r = ground arith

pub array_made :
    (old : Slot) (nr : NetReq) (fd : ℕ)
    → length (old.key).key ≡ 256
    → length ((made old nr fd).key).key ≡ 256
array_made old nr fd array = length-splice (old.key).key 0 (take nr.keylen nr.key) ∙ array

pub array_update :
    (req : ℕ → Slot) (p : ℕ) (r : Slot) (q : ℕ)
    → length (r.key).key ≡ 256
    → length ((req q).key).key ≡ 256
    → length ((update req p r q).key).key ≡ 256
array_update req p r q a b = ground (arith, a, b)

-- A request made from a message, once completed, is the one that the message asks for and fresh for
-- the index, whatever the request that was in its place, where the key fits the message and the
-- array of the request.
pub make_request-IsPrepared :
    (hash : List ℕ → ℕ × ℕ) (hlr : Handler) (nr : NetReq) (s p : ℕ) (h : Handler)
    → make_request_from_netreq hlr nr s ≡ some (p, h)
    → nr.keylen ≤ length ((hlr.req p).key).key
    → nr.keylen ≤ length nr.key
    → IsPrepared hash nr s (add_request_info hash (h.req p))
make_request-IsPrepared hash hlr nr s p h e a b =
    subst (λ r. IsPrepared hash nr s (add_request_info hash r)) (sym (made_at hlr nr s p h e))
      (made-IsPrepared hash (hlr.req p) nr.type nr s a b refl)
