-- ===== src/Wire/Codec.antt =====
-- A message that is written by src/util.c is read back as it was.
use udepot_hopscotch.Base.{
  ℕ, ◌%◌, ◌^◌, ◌<◌, ◌≡◌, refl, ◌∙◌, sym, ap, List, [], ◌∷◌, ◌++◌, arith, length, length-append,
  take, drop, take-append, drop-append,
}
use mathlib.Core.List.{append_assoc}
use udepot_hopscotch.Request.{ReqType}
use udepot_hopscotch.Handler.{NetReq}
use udepot_hopscotch.Wire.{
  key_len, netreq_size, bytes_le, number_le, type_code, type_of_code, send_request,
  send_request_bulk, netreq_at, netreq_buf,
}

-- A message whose fields fit the packed structure.
pub record IsPacked (nr : NetReq) : Type 0 where
  pub keylen : nr.keylen < 2 ^ 8
  pub seq_num : nr.seq_num < 2 ^ 32
  pub key : length nr.key ≡ key_len
  pub kv_size : nr.kv_size < 2 ^ 32

number-bytes : (x : ℕ) (rest : List ℕ) → x < 2 ^ 32 → number_le 4 (bytes_le 4 x ++ rest) ≡ x
unfolding number_le bytes_le
number-bytes x rest h = omega arith

type_of-code : (t : ReqType) → type_of_code (type_code t) ≡ t
type_of-code ReqType.padding = refl
type_of-code ReqType.set = refl
type_of-code ReqType.get = refl
type_of-code ReqType.delete = refl
type_of-code ReqType.range = refl
type_of-code ReqType.iterator = refl

pub length-send_request : (nr : NetReq) → IsPacked nr → length (send_request nr) ≡ netreq_size
unfolding send_request bytes_le
length-send_request nr v = omega (arith, v.key, length-append nr.key (bytes_le 4 nr.kv_size))

-- The key, and what follows it.
key_at :
    (nr : NetReq) (rest : List ℕ)
    → IsPacked nr
    → (take key_len ((nr.key ++ bytes_le 4 nr.kv_size) ++ rest) ≡ nr.key)
      × (drop key_len ((nr.key ++ bytes_le 4 nr.kv_size) ++ rest) ≡ bytes_le 4 nr.kv_size ++ rest)
key_at nr rest v =
    let apart = append_assoc nr.key (bytes_le 4 nr.kv_size) rest in
    (
      ap (λ n. take n ((nr.key ++ bytes_le 4 nr.kv_size) ++ rest)) (sym v.key)
          ∙ ap (take (length nr.key)) apart
          ∙ take-append nr.key (bytes_le 4 nr.kv_size ++ rest),
      ap (λ n. drop n ((nr.key ++ bytes_le 4 nr.kv_size) ++ rest)) (sym v.key)
          ∙ ap (drop (length nr.key)) apart
          ∙ drop-append nr.key (bytes_le 4 nr.kv_size ++ rest),
    )

-- The request at the front of the bytes that `send_request` writes is the one that was sent, whatever
-- follows it.
pub netreq_at-send_request :
    (nr : NetReq) (rest : List ℕ) → IsPacked nr → netreq_at (send_request nr ++ rest) ≡ nr
unfolding netreq_at send_request
netreq_at-send_request nr rest v =
    let keylen : nr.keylen % 2 ^ 8 ≡ nr.keylen = omega (arith, v.keylen) in
    let seq_num = number-bytes nr.seq_num ((nr.key ++ bytes_le 4 nr.kv_size) ++ rest) v.seq_num in
    let (key, after) = key_at nr rest v in
    let kv_size = ap (number_le 4) after ∙ number-bytes nr.kv_size rest v.kv_size in
    λ i. record {
      type = type_of-code nr.type i;
      keylen = keylen i;
      seq_num = seq_num i;
      key = key i;
      kv_size = kv_size i;
    }

abbrev pub AllPacked : List NetReq → Type 0
AllPacked [] = Unit {0}
AllPacked (nr ∷ nrs) = IsPacked nr × AllPacked nrs

-- The requests of a bulk are read back as they were sent, in their order.
pub netreq_buf-send_request_bulk :
    (nrs : List NetReq) (rest : List ℕ)
    → AllPacked nrs
    → netreq_buf (length nrs) (send_request_bulk nrs ++ rest) ≡ nrs
unfolding netreq_buf send_request_bulk
netreq_buf-send_request_bulk [] rest v = refl
netreq_buf-send_request_bulk (nr ∷ nrs) rest v =
    let apart = append_assoc (send_request nr) (send_request_bulk nrs) rest in
    let first =
      ap netreq_at apart ∙ netreq_at-send_request nr (send_request_bulk nrs ++ rest) v.0 in
    let behind =
      ap (λ n. drop n (send_request nr ++ (send_request_bulk nrs ++ rest)))
        (sym (length-send_request nr v.0))
      ∙ drop-append (send_request nr) (send_request_bulk nrs ++ rest) in
    let later =
      ap (netreq_buf (length nrs)) (ap (drop netreq_size) apart ∙ behind)
      ∙ netreq_buf-send_request_bulk nrs rest v.1 in
    λ i. first i ∷ later i
