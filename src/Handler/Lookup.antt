-- ===== src/Handler/Lookup.antt =====
-- A message that asks for a key, through src/request.c into the hopscotch index of src/hopscotch.c.
use udepot_hopscotch.Base.{
  ℕ, zero, suc, ◌+◌, ◌≤◌, ◌<◌, ◌≡◌, refl, ◌∙◌, ap, Option, none, some, List, [], arith, length,
  replicate,
}
use udepot_hopscotch.Request.{get}
use udepot_hopscotch.Hopscotch.Table.{Table, max_hop}
use udepot_hopscotch.Hopscotch.Ops.{HopRequest, idx_of, tag_of}
use udepot_hopscotch.Hopscotch.Table.Search.{HasTag}
use udepot_hopscotch.Hopscotch.Drive.{run_get}
use udepot_hopscotch.Hopscotch.Drive.Get.{pair_at, GetsFirst, run_get_total}
use udepot_hopscotch.Handler.{
  Handler, NetReq, Slot, value_len_max, make_request_from_netreq, add_request_info,
}
use udepot_hopscotch.Handler.Prepare.{buffer_for, make_request-IsPrepared}

-- The bytes behind `req->value.value`.
abbrev pub bytes_of : Option (List ℕ) → List ℕ
bytes_of none = []
bytes_of (some v) = v

-- A request with no parameters yet, as the hopscotch index reads it.
abbrev pub hop_request : Slot → HopRequest
hop_request r = record {
  type = r.type;
  seq_num = r.seq_num;
  key = r.key;
  value = record { value = bytes_of r.value; len = r.value_len };
  params = none;
}

length-replicate : (n : ℕ) → length {A = ℕ} (replicate n 0) ≡ n
length-replicate zero = refl
length-replicate (suc n) = ap suc (length-replicate n)

-- Let a request to get be made from a message whose key fits the array of the message and that of
-- the request, and let every entry of the hop that has the tag of its key deliver a pair that is
-- longer than the key and fits the buffer of 4096 bytes. Then it ends within 33 calls of the
-- index, at the first entry of the hop whose tag and pair have its key, with the pair at the
-- front of its buffer, or without one exactly where there is none.
pub make_request-GetsFirst :
    (hash : List ℕ → ℕ × ℕ) (fetch : ℕ → ℕ → List ℕ) (ht : Table) (hlr : Handler) (nr : NetReq)
    (s p : ℕ) (h : Handler)
    → make_request_from_netreq hlr nr s ≡ some (p, h)
    → nr.keylen ≤ length ((hlr.req p).key).key
    → nr.keylen ≤ length nr.key
    → nr.type ≡ get
    → ((o : ℕ)
        → o < max_hop
        → HasTag ht
            (idx_of (add_request_info hash (h.req p)).key)
            (tag_of (add_request_info hash (h.req p)).key)
            o
        → (nr.keylen < length (pair_at fetch ht (add_request_info hash (h.req p)).key o))
          × (length (pair_at fetch ht (add_request_info hash (h.req p)).key o) ≤ value_len_max))
    → GetsFirst fetch ht
        (add_request_info hash (h.req p)).key
        0
        (run_get fetch (max_hop + 1) ht (hop_request (add_request_info hash (h.req p))))
make_request-GetsFirst hash fetch ht hlr nr s p h e a b is_get ok =
    let v = make_request-IsPrepared hash hlr nr s p h e a b in
    let r = add_request_info hash (h.req p) in
    let room : length (bytes_of r.value) ≡ value_len_max =
      ap (λ x. length (bytes_of x)) (v.buffer ∙ ap (λ t. buffer_for t nr.kv_size) is_get)
      ∙ length-replicate value_len_max in
    run_get_total fetch ht (hop_request r) (v.type ∙ is_get) refl
      (λ o lt tag. (omega (arith, (ok o lt tag).0, v.len), omega (arith, (ok o lt tag).1, room)))
