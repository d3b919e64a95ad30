-- ===== src/Master.antt =====
-- The front of the server, src/master.c: `__process_request` hands the requests of a socket's buffer
-- to the handlers of the devices, by the hash of the key.
pub mod Route
pub mod Total
pub mod Bulk
pub mod Answer
pub mod Reached
pub mod Loop
use udepot_hopscotch.Base.{
  ℕ, ◌/◌, ◌%◌, ◌^◌, Bool, true, false, Option, none, some, List, [], ◌∷◌, length, take, update,
}
use udepot_hopscotch.Wire.{netreq_size, netreq_buf, Arrival, SockEnd, read_sock_bulk}
use udepot_hopscotch.Handler.{Handler, NetReq, make_request_from_netreq, forward_req_to_hlr}

-- How the loop over the requests ends: with 0; in `cl_grap`, with a request made and others to come;
-- with the error of `forward_req_to_hlr`; or in a write through NULL, where a pool is empty.
pub data LoopEnd : Type 0 where
  handled : LoopEnd
  waits : ℕ → List NetReq → LoopEnd
  failed : LoopEnd
  fault : LoopEnd

module _ (hashing_key_128 : List ℕ → ℕ × ℕ) (num_dev : ℕ) where
  -- `(hash_high >> 32) % mas->num_dev`; what the source calls `hash_high` is the first word.
  abbrev pub hlr_idx : NetReq → ℕ
  hlr_idx nr = (hashing_key_128 (take nr.keylen nr.key)).0 / 2 ^ 32 % num_dev

  -- The loop of `__process_request` over the requests of `netreq_buf`, for the socket `fd`.
  unfoldable pub process_requests : ℕ → List NetReq → (ℕ → Handler) → LoopEnd × (ℕ → Handler)
  process_requests fd [] hlr = (handled, hlr)
  process_requests fd (nr ∷ nrs) hlr =
      let i = hlr_idx nr in
      elim (make_request_from_netreq (hlr i) nr fd) [
        | none ↦ (fault, hlr)
        | some (p, h) ↦ elim (forward_req_to_hlr h p) [
          | none ↦ (waits p nrs, update hlr i h)
          | some (true, h') ↦ process_requests fd nrs (update hlr i h')
          | some (false, h') ↦ (failed, update hlr i h')
        ]
      ]

-- `MAX_NETREQ_BUF`
abbrev pub max_netreq_buf : ℕ
max_netreq_buf = 1024

-- How `__process_request` ends: with 0 and nothing read; with 1, the socket closed; not yet, in
-- `read_sock_bulk`; or as its loop over the requests.
pub data ProcessEnd : Type 0 where
  no_input : ProcessEnd
  disconnected : ProcessEnd
  reading : ProcessEnd
  ended : LoopEnd → ProcessEnd

-- `__process_request`, with the bytes that the socket has for it. What is left of them is returned too.
unfoldable pub process_request :
    (List ℕ → ℕ × ℕ)
    → ℕ
    → ℕ
    → List Arrival
    → List ℕ
    → (ℕ → Handler)
    → ProcessEnd × (ℕ → Handler) × List ℕ
process_request hashing_key_128 num_dev fd rs stream hlr =
    let (len, left) = read_sock_bulk max_netreq_buf netreq_size rs stream in
    elim len [
      | SockEnd.failed ↦ (no_input, hlr, left)
      | SockEnd.closed ↦ (disconnected, hlr, left)
      | SockEnd.waiting buf ↦ (reading, hlr, left)
      | SockEnd.received buf ↦
          let n_obj = length buf / netreq_size in
          let (end, hlr') =
            process_requests hashing_key_128 num_dev fd (netreq_buf n_obj buf) hlr in
          (ended end, hlr', left)
    ]
