-- ===== src/Wire/Receive.antt =====
-- The requests that a client sends and the ones that the server finds in its buffer.
use udepot_hopscotch.Base.{
  ℕ, zero, suc, ◌*◌, ◌/◌, ◌≤◌, ◌≡◌, refl, ◌∙◌, sym, ap, inl, inr, List, [], ◌∷◌, ◌++◌, arith,
  length, length-append, length-take, take, drop, take-append, drop-append, ==_iff,
}
use mathlib.Core.List.{append_assoc, append-nil}
use mathlib.Core.Path.{subst}
use udepot_hopscotch.Handler.{NetReq}
use udepot_hopscotch.Wire.{
  netreq_size, send_request, send_request_bulk, netreq_buf, Arrival, received, whole,
  read_sock_bulk,
}
use udepot_hopscotch.Wire.Codec.{AllPacked, length-send_request, netreq_buf-send_request_bulk}
use udepot_hopscotch.Wire.Sock.{Takes, read_sock_bulk-Takes}

pub length-send_request_bulk :
    (nrs : List NetReq) → AllPacked nrs → length (send_request_bulk nrs) ≡ netreq_size * length nrs
unfolding send_request_bulk
length-send_request_bulk [] v = refl
length-send_request_bulk (nr ∷ nrs) v = omega (
  arith,
  length-append (send_request nr) (send_request_bulk nrs),
  length-send_request nr v.0,
  length-send_request_bulk nrs v.1,
)

bulk_split :
    (n : ℕ) (nrs : List NetReq)
    → send_request_bulk (take n nrs) ++ send_request_bulk (drop n nrs) ≡ send_request_bulk nrs
unfolding send_request_bulk
bulk_split zero nrs = refl
bulk_split (suc n) [] = refl
bulk_split (suc n) (nr ∷ nrs) =
    append_assoc (send_request nr) (send_request_bulk (take n nrs)) (send_request_bulk (drop n nrs))
    ∙ ap (λ l. send_request nr ++ l) (bulk_split n nrs)

AllPacked-take : (n : ℕ) (nrs : List NetReq) → AllPacked nrs → AllPacked (take n nrs)
AllPacked-take zero nrs v = tt
AllPacked-take (suc n) [] v = tt
AllPacked-take (suc n) (nr ∷ nrs) v = (v.0, AllPacked-take n nrs v.1)

-- Two splits of one list at the same length.
split_unique :
    {A : Type 0} (xs ys us vs : List A)
    → xs ++ ys ≡ us ++ vs
    → length xs ≡ length us
    → (xs ≡ us) × (ys ≡ vs)
split_unique xs ys us vs e len = (
  sym (take-append xs ys) ∙ (λ i. take (len i) (e i)) ∙ take-append us vs,
  sym (drop-append xs ys) ∙ (λ i. drop (len i) (e i)) ∙ drop-append us vs,
)

-- The bytes that were read hold whole requests only.
whole_requests :
    (max_objs : ℕ) (nrs : List NetReq) (b left : List ℕ)
    → Takes (whole netreq_size) (netreq_size * max_objs) (send_request_bulk nrs) (received b, left)
    → length b ≡ netreq_size * (length b / netreq_size)
whole_requests max_objs nrs b left (e, le, inl stop) = let z = (==_iff _ _).0 stop in omega arith
whole_requests max_objs nrs b left (e, le, inr full) = omega arith

-- However the bytes of a bulk of requests arrive, what `read_sock_bulk` returns of them are the first of
-- the requests, whole, in their order, at most as many as the buffer has room for; and the stream goes
-- on with the bytes of the others.
pub read_sock_bulk-requests :
    (max_objs : ℕ) (rs : List Arrival) (nrs : List NetReq) (b left : List ℕ)
    → AllPacked nrs
    → read_sock_bulk max_objs netreq_size rs (send_request_bulk nrs) ≡ (received b, left)
    → (netreq_buf (length b / netreq_size) b ≡ take (length b / netreq_size) nrs)
      × (left ≡ send_request_bulk (drop (length b / netreq_size) nrs))
      × (length b / netreq_size ≤ max_objs)
read_sock_bulk-requests max_objs rs nrs b left v e =
    let t =
      subst (Takes (whole netreq_size) (netreq_size * max_objs) (send_request_bulk nrs)) e
        (read_sock_bulk-Takes max_objs netreq_size rs (send_request_bulk nrs)) in
    let n = length b / netreq_size in
    let objs = whole_requests max_objs nrs b left t in
    let total =
      sym (length-append b left)
      ∙ ap (λ (l : List ℕ). length l) t.0
      ∙ length-send_request_bulk nrs v in
    let taken : length (take n nrs) ≡ n = length-take n nrs (omega (arith, total, objs)) in
    let packed = AllPacked-take n nrs v in
    let same =
      split_unique b left (send_request_bulk (take n nrs)) (send_request_bulk (drop n nrs))
        (t.0 ∙ sym (bulk_split n nrs))
        (omega (arith, objs, taken, length-send_request_bulk (take n nrs) packed)) in
    (
      (λ i. netreq_buf (sym taken i) (same.0 i))
          ∙ ap (netreq_buf (length (take n nrs)))
              (sym (append-nil (send_request_bulk (take n nrs))))
          ∙ netreq_buf-send_request_bulk (take n nrs) [] packed,
      same.1,
      omega (arith, t.1),
    )
