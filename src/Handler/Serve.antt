-- ===== src/Handler/Serve.antt =====
-- The loop of `request_handler` of src/handler.c on the requests that wait: it acknowledges each of
-- them once, in the order of their arrival.
use mathlib.Core.Path.{subst}
use mathlib.Core.List.{append_assoc, append-nil}
use udepot_hopscotch.Base.{
  ℕ, zero, suc, ◌+◌, ◌≤◌, ◌<◌, ◌≡◌, ◌≢◌, refl, ◌∙◌, sym, ap, false, none, some, List, [], ◌∷◌, ◌++◌,
  arith, length, length-append, ◌==◌, ==_ne,
}
use udepot_hopscotch.Queue.Spec.{enqueue, dequeue}
use udepot_hopscotch.Handler.{
  Handler, Slot, Ack, qsize, add_request_info, prepare, get_next_request, net_end_req, serve,
}

-- `n` rounds of the loop, and the acknowledgements that they send.
unfoldable pub serve_all : (List ℕ → ℕ × ℕ) → ℕ → Handler → List Ack × Handler
serve_all hash zero hlr = ([], hlr)
serve_all hash (suc n) hlr =
    let (ack, hlr') = serve hash hlr in
    let (acks, last) = serve_all hash n hlr' in (elim ack [ none ↦ acks | some a ↦ a ∷ acks ], last)

abbrev pub ack_of : Slot → Ack
ack_of r = record { sock = r.cl_sock; seq_num = r.seq_num; type = r.type }

info-ack : (hash : List ℕ → ℕ × ℕ) (r : Slot) → ack_of (add_request_info hash r) ≡ ack_of r
unfolding add_request_info
info-ack hash r = ground arith

prepare-ack :
    (hash : List ℕ → ℕ × ℕ) (req : ℕ → Slot) (r p : ℕ)
    → ack_of (prepare hash req r p) ≡ ack_of (req p)
prepare-ack hash req r p = ground (arith, info-ack hash (req r))

-- The pointers are not null.
abbrev pub NoNull : List ℕ → Type 0
NoNull [] = Unit {0}
NoNull (p ∷ ps) = (p ≢ 0) × NoNull ps

-- One round with a request waiting.
record Served (hlr hlr' : Handler) (p : ℕ) (ps : List ℕ) : Type 0 where
  left : hlr'.req_q ≡ ps
  no_retry : hlr'.retry_q ≡ []
  pool : hlr'.req_pool ≡ (enqueue qsize p hlr.req_pool).1
  acks : (q : ℕ) → ack_of (hlr'.req q) ≡ ack_of (hlr.req q)

serve_next :
    (hash : List ℕ → ℕ × ℕ) (hlr : Handler) (p : ℕ) (ps : List ℕ)
    → (p == 0) ≡ false
    → let h : Handler = record hlr { req_q = p ∷ ps; retry_q = [] } in
      ((serve hash h).0 ≡ some (ack_of (h.req p))) × Served h (serve hash h).1 p ps
unfolding serve get_next_request net_end_req dequeue
serve_next hash hlr p ps nz =
    rw (serve, get_next_request, nz)
      (
        ap some (prepare-ack hash hlr.req p p),
        record { left = refl; no_retry = refl; pool = refl; acks = prepare-ack hash hlr.req p },
      )

serve-Served :
    (hash : List ℕ → ℕ × ℕ) (hlr : Handler) (p : ℕ) (ps : List ℕ)
    → hlr.req_q ≡ p ∷ ps
    → hlr.retry_q ≡ []
    → p ≢ 0
    → ((serve hash hlr).0 ≡ some (ack_of (hlr.req p))) × Served hlr (serve hash hlr).1 p ps
serve-Served hash hlr p ps waiting no_retry ne =
    let same : record hlr { req_q = p ∷ ps; retry_q = [] } ≡ hlr =
      λ i. record hlr { req_q = sym waiting i; retry_q = sym no_retry i } in
    subst
      (λ (h : Handler).
        ((serve hash h).0 ≡ some (ack_of (h.req p))) × Served h (serve hash h).1 p ps)
      same (serve_next hash hlr p ps (==_ne p 0 ne))

-- The acknowledgements of requests in a row.
abbrev pub acks_of : (ℕ → Slot) → List ℕ → List Ack
acks_of req [] = []
acks_of req (p ∷ ps) = ack_of (req p) ∷ acks_of req ps

acks_ext :
    (req req' : ℕ → Slot) (ps : List ℕ)
    → ((q : ℕ) → ack_of (req' q) ≡ ack_of (req q))
    → acks_of req' ps ≡ acks_of req ps
acks_ext req req' [] h = refl
acks_ext req req' (p ∷ ps) h = λ i. h p i ∷ acks_ext req req' ps h i

enqueue_room : (p : ℕ) (xs : List ℕ) → length xs < qsize → (enqueue qsize p xs).1 ≡ xs ++ p ∷ []
unfolding enqueue
enqueue_room p xs lt = let short : (length xs == qsize) ≡ false = ground arith in rw short

-- With no request to be retried, and room in the pool for those that wait, as many rounds as requests
-- wait send an acknowledgement for each of them, in the order of their arrival, and return them to the
-- pool in that order.
pub serve_all_lem :
    (hash : List ℕ → ℕ × ℕ) (ps : List ℕ) (hlr : Handler)
    → hlr.req_q ≡ ps
    → hlr.retry_q ≡ []
    → NoNull ps
    → length hlr.req_pool + length ps ≤ qsize
    → ((serve_all hash (length ps) hlr).0 ≡ acks_of hlr.req ps)
      × (((serve_all hash (length ps) hlr).1).req_q ≡ [])
      × (((serve_all hash (length ps) hlr).1).req_pool ≡ hlr.req_pool ++ ps)
unfolding serve_all
serve_all_lem hash [] hlr waiting no_retry live room =
    (refl, waiting, sym (append-nil hlr.req_pool))
serve_all_lem hash (p ∷ ps) hlr waiting no_retry live room =
    let (ack, s) = serve-Served hash hlr p ps waiting no_retry live.0 in
    let freed = s.pool ∙ enqueue_room p hlr.req_pool (omega arith) in
    let (acks, left, pool) =
      serve_all_lem hash ps (serve hash hlr).1 s.left s.no_retry live.1
        (omega (arith, ap (λ (l : List ℕ). length l) freed, length-append hlr.req_pool (p ∷ []))) in
    (
      (λ i. elim (ack i) [
        | none ↦ (serve_all hash (length ps) (serve hash hlr).1).0
        | some a ↦ a ∷ (serve_all hash (length ps) (serve hash hlr).1).0
      ])
          ∙ ap (λ l. ack_of (hlr.req p) ∷ l)
              (acks ∙ acks_ext hlr.req ((serve hash hlr).1).req ps s.acks),
      left,
      pool ∙ ap (λ (l : List ℕ). l ++ ps) freed ∙ append_assoc hlr.req_pool (p ∷ []) ps,
    )
