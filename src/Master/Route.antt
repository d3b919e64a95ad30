-- ===== src/Master/Route.antt =====
-- Where the requests of a buffer go: `__process_request` of src/master.c as a partition of them among
-- the queues of the handlers.
use udepot_hopscotch.Base.{
  ℕ, ◌+◌, ◌≤◌, ◌≡◌, refl, ◌∙◌, ap, true, false, some, List, [], ◌∷◌, ◌++◌, arith, length, take,
  ◌==◌, update,
}
use udepot_hopscotch.Request.{ReqType}
use udepot_hopscotch.Handler.Flow.Once.{at}
use udepot_hopscotch.Handler.{Handler, NetReq, Slot, make_request_from_netreq, forward_req_to_hlr}
use udepot_hopscotch.Handler.Prepare.{made, made_req, take-splice, array_made, array_update}
use udepot_hopscotch.Handler.Flow.{tally, tally-append, make_tally, queued}

-- What a waiting request asks for, and for which socket.
pub record Message : Type 0 where
  pub type : ReqType
  pub seq_num : ℕ
  pub key : List ℕ
  pub kv_size : ℕ
  pub sock : ℕ

abbrev pub asked : Slot → Message
asked r = record {
  type = r.type;
  seq_num = r.seq_num;
  key = take (r.key).len (r.key).key;
  kv_size = r.value_len;
  sock = r.cl_sock;
}

abbrev pub message : ℕ → NetReq → Message
message fd nr = record {
  type = nr.type;
  seq_num = nr.seq_num;
  key = take nr.keylen nr.key;
  kv_size = nr.kv_size;
  sock = fd;
}

abbrev pub messages : ℕ → List NetReq → List Message
messages fd [] = []
messages fd (nr ∷ nrs) = message fd nr ∷ messages fd nrs

abbrev pub asked_all : (ℕ → Slot) → List ℕ → List Message
asked_all req [] = []
asked_all req (p ∷ ps) = asked (req p) ∷ asked_all req ps

-- The messages that wait in a handler's queue, the oldest first.
abbrev pub waiting : Handler → List Message
waiting hlr = asked_all hlr.req hlr.req_q

-- A request is at most once in the pool or the queue, and has the array of `struct key_struct`.
pub record IsReady (hlr : Handler) : Type 0 where
  pub once : (q : ℕ) → tally (at q) hlr.req_pool + tally (at q) hlr.req_q ≤ 1
  pub array : (p : ℕ) → length ((hlr.req p).key).key ≡ 256

asked_all-append :
    (req : ℕ → Slot) (ps : List ℕ) (p : ℕ)
    → asked_all req (ps ++ p ∷ []) ≡ asked_all req ps ++ asked (req p) ∷ []
asked_all-append req [] p = refl
asked_all-append req (q ∷ ps) p = ap (λ l. asked (req q) ∷ l) (asked_all-append req ps p)

asked_all-update :
    (req : ℕ → Slot) (p : ℕ) (r : Slot) (ps : List ℕ)
    → tally (at p) ps ≡ 0
    → asked_all (update req p r) ps ≡ asked_all req ps
unfolding tally
asked_all-update req p r [] away = refl
asked_all-update req p r (q ∷ ps) away =
    let other : (q == p) ≡ false = ground arith in
    let same : update req p r q ≡ req q = rw other in
    λ i. asked (same i) ∷ asked_all-update req p r ps (omega arith) i

asked_made :
    (old : Slot) (nr : NetReq) (fd : ℕ)
    → length (old.key).key ≡ 256
    → nr.keylen ≤ 32
    → length nr.key ≡ 32
    → asked (made old nr fd) ≡ message fd nr
asked_made old nr fd array short key =
    let bytes =
      take-splice nr.keylen (old.key).key nr.key (omega (arith, array)) (omega (arith, key)) in
    λ i. record {
      type = nr.type;
      seq_num = nr.seq_num;
      key = bytes i;
      kv_size = nr.kv_size;
      sock = fd;
    }

update_self : (f : ℕ → Slot) (q : ℕ) (r : Slot) → update f q r q ≡ r
update_self f q r = ground arith

-- A request that was made and queued: the handler stays ready, and the message waits last.
pub made_queued :
    (hlr : Handler) (nr : NetReq) (fd p : ℕ) (h h' : Handler)
    → IsReady hlr
    → nr.keylen ≤ 32
    → length nr.key ≡ 32
    → make_request_from_netreq hlr nr fd ≡ some (p, h)
    → forward_req_to_hlr h p ≡ some (true, h')
    → IsReady h' × (waiting h' ≡ waiting hlr ++ message fd nr ∷ [])
unfolding tally
made_queued hlr nr fd p h h' v short key e e' =
    let (sums, lock, req_q, retry_q) = make_tally hlr nr fd p h e in
    let (last, same_req, pool) = queued h p h' e' in
    let req' = same_req ∙ made_req hlr nr fd p h e in
    let r = made (hlr.req p) nr fd in
    let once : (q : ℕ) → tally (at q) h'.req_pool + tally (at q) h'.req_q ≤ 1 = λ q. omega (
      arith,
      v.once q,
      sums (at q),
      ap (tally (at q)) pool,
      ap (tally (at q)) (last ∙ ap (λ l. l ++ p ∷ []) req_q),
      tally-append (at q) hlr.req_q (p ∷ []),
    ) in
    let here : at p p ≡ 1 = ground arith in
    let away : tally (at p) hlr.req_q ≡ 0 = omega (arith, v.once p, sums (at p), here) in
    let fits = array_made (hlr.req p) nr fd (v.array p) in
    let rest = asked_all-update hlr.req p r hlr.req_q away in
    (
      record {
        once = once;
        array = λ q.
            ap (λ f. length ((f q).key).key) req' ∙ array_update hlr.req p r q fits (v.array q);
      },
      ap (asked_all h'.req) (last ∙ ap (λ l. l ++ p ∷ []) req_q)
          ∙ ap (λ f. asked_all f (hlr.req_q ++ p ∷ [])) req'
          ∙ asked_all-append (update hlr.req p r) hlr.req_q p
          ∙ (λ i.
              rest i
              ++ (ap asked (update_self hlr.req p r)
                    ∙ asked_made (hlr.req p) nr fd (v.array p) short key)
                  i
                ∷ []),
    )
