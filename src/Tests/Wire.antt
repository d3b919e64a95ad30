-- ===== src/Tests/Wire.antt =====
-- Two messages on a socket of src/util.c, in pieces.
use udepot_hopscotch.Base.{◌≡◌, refl, List, [], ◌∷◌, arith, take, drop}
use udepot_hopscotch.Handler.{NetReq}
use udepot_hopscotch.Wire.{
  netreq_size, bytes_le, send_request, send_request_bulk, Arrival, again, avail, received,
  read_loop, read_sock, read_sock_bulk,
}
use udepot_hopscotch.Wire.Codec.{AllPacked}
use udepot_hopscotch.Wire.Sock.{read_sock_total}
use udepot_hopscotch.Tests.Handler.{get_ab, set_b}

abbrev pub both : List NetReq
both = get_ab ∷ set_b ∷ []

pub both-AllPacked : AllPacked both
both-AllPacked = (
  record { keylen = omega arith; seq_num = omega arith; key = refl; kv_size = omega arith },
  (record { keylen = omega arith; seq_num = omega arith; key = refl; kv_size = omega arith }, tt),
)

read_sock_total_example :
    read_sock 3 (avail 1 ∷ avail 2 ∷ avail 1 ∷ []) (4 ∷ 5 ∷ 6 ∷ 7 ∷ [])
    ≡ (received (take 3 (4 ∷ 5 ∷ 6 ∷ 7 ∷ [])), drop 3 (4 ∷ 5 ∷ 6 ∷ 7 ∷ []))
read_sock_total_example =
    read_sock_total 3 (avail 1 ∷ avail 2 ∷ avail 1 ∷ []) (4 ∷ 5 ∷ 6 ∷ 7 ∷ [])
      (omega arith, (omega arith, (omega arith, tt))) (omega arith) (omega arith)

-- The first message arrives in two pieces, with nothing to read in between, and the second one not yet.
abbrev pub pieces : List Arrival
pieces = avail 40 ∷ again ∷ avail 2 ∷ []

pub first_read :
    read_sock_bulk 1024 netreq_size pieces (send_request_bulk both)
    ≡ (received (send_request get_ab), send_request_bulk (set_b ∷ []))
unfolding read_sock_bulk read_loop send_request_bulk send_request bytes_le
first_read = refl
