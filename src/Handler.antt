-- ===== src/Handler.antt =====
-- The request handler of src/handler.c with the requests of src/request.c: the pool that requests are
-- taken from, the queues that they wait in, and the lock that bounds how many are in flight.
-- A queue is the list of pointers that src/queue.c promises (Queue.Spec); a pointer to a request is an
-- index of `req_arr`, counted from 1, and NULL is 0. The hash of a key is a parameter.
pub mod Flow
pub mod Prepare
pub mod Lookup
pub mod Serve
use udepot_hopscotch.Base.{
  ℕ, suc, zero, ◌+◌, Bool, true, false, Option, none, some, List, [], ◌∷◌, take, splice, replicate,
  ◌==◌, if◌then◌else◌, update,
}
use udepot_hopscotch.Pair.{KeyStruct}
use udepot_hopscotch.Request.{ReqType}
use udepot_hopscotch.CondLock.{ClLock, cl_init, cl_grap, cl_release}
use udepot_hopscotch.Queue.Spec.{enqueue, dequeue}

-- `QSIZE`, `QDEPTH` and `VALUE_LEN_MAX` of include/config.h
abbrev pub qsize : ℕ
qsize = 1024

abbrev pub qdepth : ℕ
qdepth = 256

abbrev pub value_len_max : ℕ
value_len_max = 4096

-- `struct netreq`
pub record NetReq : Type 0 where
  pub type : ReqType
  pub keylen : ℕ
  pub seq_num : ℕ
  pub key : List ℕ
  pub kv_size : ℕ

-- A `struct request` of `req_arr`. `has_params` tells whether `params` is set; the buffer of the
-- value is `none` where the pointer is NULL. The clock is left out, and `end_req`, `hlr` and `temp_buf`,
-- which are always `net_end_req`, the handler that the request belongs to, and NULL here.
pub record Slot : Type 0 where
  pub type : ReqType
  pub seq_num : ℕ
  pub key : KeyStruct
  pub value : Option (List ℕ)
  pub value_len : ℕ
  pub has_params : Bool
  pub cl_sock : ℕ

-- `struct handler`, less the device and the index. `done_q` and the pools of callbacks and of control
-- blocks are left out.
pub record Handler : Type 0 where
  pub flying : ClLock
  pub req_q : List ℕ
  pub retry_q : List ℕ
  pub req_pool : List ℕ
  pub req : ℕ → Slot

-- The loop of `handler_init` that fills the pool: `n` requests, the last of them `p`.
unfoldable pub fill_pool : ℕ → ℕ → List ℕ → List ℕ
unfolding enqueue
fill_pool zero p pool = pool
fill_pool (suc n) p pool = fill_pool n (p + 1) (enqueue qsize p pool).1

-- `handler_init` on a calloc'ed array of requests.
unfoldable pub handler_init : (ℕ → Slot) → Handler
unfolding cl_init fill_pool
handler_init req_arr = record {
  flying = cl_init qdepth false;
  req_q = [];
  retry_q = [];
  req_pool = fill_pool qsize 1 [];
  req = req_arr;
}

-- `make_request_from_netreq`: `none` is a write through NULL, where the pool is empty. The copy of
-- the key takes `keylen` bytes of the 32 that a `struct netreq` has.
unfoldable pub make_request_from_netreq : Handler → NetReq → ℕ → Option (ℕ × Handler)
unfolding dequeue
make_request_from_netreq hlr nr sock =
    let (p, pool) = dequeue hlr.req_pool in
    let old = hlr.req p in
    if p == 0
    then none
    else some (
      p,
      record hlr {
        req_pool = pool;
        req = update hlr.req p (record old {
          type = nr.type;
          seq_num = nr.seq_num;
          key = record (old.key) {
            key = splice (old.key).key 0 (take nr.keylen nr.key);
            len = nr.keylen;
          };
          value_len = nr.kv_size;
          value = none;
          cl_sock = sock;
        });
      },
    )

-- `none` waits in `cl_grap`; `false` is the return code -1.
unfoldable pub forward_req_to_hlr : Handler → ℕ → Option (Bool × Handler)
unfolding enqueue
forward_req_to_hlr hlr p = elim (cl_grap hlr.flying) [
  | none ↦ none
  | some flying ↦
      let (ok, req_q) = enqueue qsize p hlr.req_q in
      some (ok, record hlr { flying = flying; req_q = req_q })
]

-- `false` is the return code 1.
unfoldable pub retry_req_to_hlr : Handler → ℕ → Bool × Handler
unfolding enqueue
retry_req_to_hlr hlr p =
    let (ok, retry_q) = enqueue qsize p hlr.retry_q in (ok, record hlr { retry_q = retry_q })

-- `set_value` with no input: a buffer of zeros.
abbrev pub set_value : Slot → ℕ → Slot
set_value r len = record r { value_len = len; value = some (replicate len 0) }

module _ (hashing_key_128 : List ℕ → ℕ × ℕ) where
  -- `add_request_info`
  unfoldable pub add_request_info : Slot → Slot
  add_request_info r =
      let (low, high) = hashing_key_128 (take (r.key).len (r.key).key) in
      let hashed = record r {
        key = record (r.key) { hash_low = low; hash_high = high };
        has_params = false;
      } in
      elim r.type [
        | ReqType.get ↦ set_value hashed value_len_max
        | ReqType.set ↦ set_value hashed r.value_len
        | _ ↦ hashed
      ]

  -- A request with no buffer yet is completed.
  abbrev pub prepare : (ℕ → Slot) → ℕ → ℕ → Slot
  prepare req r = elim (req r).value [
    | none ↦ update req r (add_request_info (req r))
    | some _ ↦ req
  ]

  -- `get_next_request`: a request to be retried first. 0 is NULL, where both queues are empty.
  unfoldable pub get_next_request : Handler → ℕ × Handler
  unfolding dequeue
  get_next_request hlr =
      let (p, retry_q) = dequeue hlr.retry_q in
      let (r, req_q) = dequeue hlr.req_q in
      if p == 0
      then (
        r,
        record hlr {
          retry_q = retry_q;
          req_q = req_q;
          req = if r == 0 then hlr.req else prepare hlr.req r;
        },
      )
      else (p, record hlr { retry_q = retry_q })

-- What `send_ack` sends, less the elapsed time.
pub record Ack : Type 0 where
  pub sock : ℕ
  pub seq_num : ℕ
  pub type : ReqType

-- `net_end_req`. The block of parameters and the buffer are freed, and the pointers to them stay in
-- the request until it is made again. The result of `q_enqueue` is dropped, as in the source.
unfoldable pub net_end_req : Handler → ℕ → Ack × Handler
unfolding enqueue cl_release
net_end_req hlr p =
    let r = hlr.req p in
    (
      record { sock = r.cl_sock; seq_num = r.seq_num; type = r.type },
      record hlr {
        flying = (cl_release hlr.flying).0;
        req_pool = (enqueue qsize p hlr.req_pool).1;
      },
    )

-- One round of the loop of `request_handler`, whose `continue` stands before the callbacks and the
-- dispatch: the next request is ended.
unfoldable pub serve : (List ℕ → ℕ × ℕ) → Handler → Option Ack × Handler
unfolding get_next_request net_end_req
serve hashing_key_128 hlr =
    let (p, hlr') = get_next_request hashing_key_128 hlr in
    let (ack, ended) = net_end_req hlr' p in if p == 0 then (none, hlr') else (some ack, ended)
