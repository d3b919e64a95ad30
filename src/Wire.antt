-- ===== src/Wire.antt =====
-- Messages between client and server: the packed structures of include/type.h as bytes, and the reads
-- of src/util.c that collect them from a socket.
pub mod Codec
pub mod Sock
pub mod Receive
use udepot_hopscotch.Base.{
  ℕ, zero, suc, ◌+◌, ◌-◌, ◌*◌, ◌/◌, ◌%◌, ◌^◌, Option, none, some, List, [], ◌∷◌, ◌++◌, length,
  get_or, take, drop, Bool, false, ltb, ◌==◌, if◌then◌else◌,
}
use udepot_hopscotch.Request.{ReqType}
use udepot_hopscotch.Handler.{NetReq}

-- `KEY_LEN` of include/config.h, and the size of a packed `struct netreq`
abbrev pub key_len : ℕ
key_len = 32

abbrev pub netreq_size : ℕ
netreq_size = 42

-- `n` bytes of a number, the lowest first, and the number that they stand for.
unfoldable pub bytes_le : ℕ → ℕ → List ℕ
bytes_le zero x = []
bytes_le (suc n) x = x % 2 ^ 8 ∷ bytes_le n (x / 2 ^ 8)

unfoldable pub number_le : ℕ → List ℕ → ℕ
number_le zero bs = 0
number_le (suc n) bs = get_or bs 0 0 + 2 ^ 8 * number_le n (drop 1 bs)

-- The values of `enum req_type_t`.
abbrev pub type_code : ReqType → ℕ
type_code ReqType.padding = 0
type_code ReqType.set = 1
type_code ReqType.get = 2
type_code ReqType.delete = 3
type_code ReqType.range = 4
type_code ReqType.iterator = 5

-- A value of no constructor falls into the default branch of every switch, as padding does.
abbrev pub type_of_code : ℕ → ReqType
type_of_code c =
    if c == 1
    then ReqType.set
    else if c == 2
    then ReqType.get
    else if c == 3
    then ReqType.delete
    else if c == 4
    then ReqType.range
    else if c == 5
    then ReqType.iterator
    else ReqType.padding

-- The bytes that `send_request` writes: the fields in a row.
unfoldable pub send_request : NetReq → List ℕ
unfolding bytes_le
send_request nr =
    type_code nr.type ∷ nr.keylen % 2 ^ 8 ∷ bytes_le 4 nr.seq_num
    ++ (nr.key ++ bytes_le 4 nr.kv_size)

-- `send_request_bulk`
unfoldable pub send_request_bulk : List NetReq → List ℕ
send_request_bulk [] = []
send_request_bulk (nr ∷ nrs) = send_request nr ++ send_request_bulk nrs

-- The request that stands at the front of a buffer.
unfoldable pub netreq_at : List ℕ → NetReq
unfolding number_le
netreq_at bs = record {
  type = type_of_code (get_or bs 0 0);
  keylen = get_or bs 1 0;
  seq_num = number_le 4 (drop 2 bs);
  key = take key_len (drop 6 bs);
  kv_size = number_le 4 (drop 38 bs);
}

-- `netreq_buf` as an array of `n` requests
unfoldable pub netreq_buf : ℕ → List ℕ → List NetReq
netreq_buf zero bs = []
netreq_buf (suc n) bs = netreq_at bs ∷ netreq_buf n (drop netreq_size bs)

-- What a call of `read` meets: nothing to read yet, which is its -1, or that many bytes at hand. With
-- none at hand it returns 0, the end of the stream.
pub data Arrival : Type 0 where
  again : Arrival
  avail : ℕ → Arrival

-- How the two functions end: with -1, with 0, with the number of bytes in the buffer, or not yet, where
-- nothing more is known to arrive.
pub data SockEnd : Type 0 where
  failed : SockEnd
  closed : SockEnd
  received : List ℕ → SockEnd
  waiting : List ℕ → SockEnd

-- The bytes that `read` copies: at most `room`, of those at hand.
abbrev pub read : ℕ → ℕ → List ℕ → List ℕ
read n room stream = take (if ltb n room then n else room) stream

-- The loop of `read_sock` and `read_sock_bulk`, with the bytes in the buffer so far; `enough` is the
-- test by which it breaks after a read. The stream that is left is returned too.
unfoldable pub read_loop : (List ℕ → Bool) → ℕ → List Arrival → List ℕ → List ℕ → SockEnd × List ℕ
read_loop enough count [] stream buf =
    if ltb (length buf) count then (waiting buf, stream) else (received buf, stream)
read_loop enough count (again ∷ rs) stream buf =
    let more = read_loop enough count rs stream buf in
    if ltb (length buf) count
    then (if length buf == 0 then (failed, stream) else more)
    else (received buf, stream)
read_loop enough count (avail n ∷ rs) stream buf =
    let got = read n (count - length buf) stream in
    let left = drop (length got) stream in
    let more = read_loop enough count rs left (buf ++ got) in
    if ltb (length buf) count
    then (if length got == 0
        then (closed, stream)
        else if enough (buf ++ got)
        then (received (buf ++ got), left)
        else more)
    else (received buf, stream)

unfoldable pub read_sock : ℕ → List Arrival → List ℕ → SockEnd × List ℕ
unfolding read_loop
read_sock count rs stream = read_loop (λ buf. false) count rs stream []

-- The test `readed % align == 0` after each read.
abbrev pub whole : ℕ → List ℕ → Bool
whole align buf = length buf % align == 0

unfoldable pub read_sock_bulk : ℕ → ℕ → List Arrival → List ℕ → SockEnd × List ℕ
unfolding read_loop
read_sock_bulk max_objs align rs stream = read_loop (whole align) (align * max_objs) rs stream []
