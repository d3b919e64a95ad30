-- ===== src/Master/Total.antt =====
-- The loop of `__process_request` of src/master.c where the handlers have room: it handles every
-- request of the buffer, and each waits with the handler that the hash of its key names.
use mathlib.Core.Path.{subst}
use mathlib.Core.List.{append_assoc, append-nil}
use udepot_hopscotch.Base.{
  ℕ, suc, ◌+◌, ◌^◌, ◌≤◌, ◌<◌, ◌≡◌, refl, ◌∙◌, sym, ap, inl, inr, true, false, some, List, [], ◌∷◌,
  ◌++◌, arith, length, length-append, ◌==◌, if◌then◌else◌, Bool-cases, Option-cases, ==_iff, ==_ne,
  update,
}
use udepot_hopscotch.CondLock.{ClLock, cl_grap, up}
use udepot_hopscotch.Queue.Spec.{enqueue}
use udepot_hopscotch.CondLock.Safety.{grap_cases}
use udepot_hopscotch.Handler.{Handler, NetReq, qsize, make_request_from_netreq, forward_req_to_hlr}
use udepot_hopscotch.Handler.Flow.{tally, one, tally-one, zero_at, make_tally, forward_tally}
use udepot_hopscotch.Handler.Flow.Progress.{makes_one}
use udepot_hopscotch.Master.{handled, hlr_idx, process_requests}
use udepot_hopscotch.Master.Route.{message, messages, waiting, IsReady, made_queued}

-- The handler can take `n` more requests: of the pool, of the lock and of the queue.
pub record HasRoom (n : ℕ) (hlr : Handler) : Type 0 where
  pub pool : n ≤ length hlr.req_pool
  pub live : tally zero_at hlr.req_pool ≡ 0
  pub counts : (hlr.flying).zero_lock ≡ false
  pub lock : (hlr.flying).now + n ≤ (hlr.flying).cnt
  pub word : (hlr.flying).cnt < 2 ^ 32
  pub queue : length hlr.req_q + n ≤ qsize

pub HasRoom-le : (m n : ℕ) (hlr : Handler) → m ≤ n → HasRoom n hlr → HasRoom m hlr
HasRoom-le m n hlr le v = record {
  pool = omega (arith, v.pool);
  live = v.live;
  counts = v.counts;
  lock = omega (arith, v.lock);
  word = v.word;
  queue = omega (arith, v.queue);
}

graps : (l : ClLock) → l.zero_lock ≡ false → l.now < l.cnt → (l' : ClLock) × (cl_grap l ≡ some l')
unfolding cl_grap
graps l z lt =
    let below : (l.now == l.cnt) ≡ false = ==_ne _ _ (λ e. omega arith) in
    (up l, rw (cl_grap, z, below))

forwards :
    (hlr : Handler) (p : ℕ) (l : ClLock)
    → length hlr.req_q < qsize
    → cl_grap hlr.flying ≡ some l
    → (h : Handler) × (forward_req_to_hlr hlr p ≡ some (true, h))
unfolding forward_req_to_hlr enqueue
forwards hlr p l lt g =
    let short : (length hlr.req_q == qsize) ≡ false = ground arith in
    (record hlr { flying = l; req_q = hlr.req_q ++ p ∷ [] }, rw (forward_req_to_hlr, g, short))

left :
    (n : ℕ) (hlr : Handler) (nr : NetReq) (fd : ℕ)
    → HasRoom (suc n) hlr
    → (p : ℕ) (h h' : Handler) → make_request_from_netreq hlr nr fd ≡ some (p, h)
    → forward_req_to_hlr h p ≡ some (true, h')
    → HasRoom n h'
left n hlr nr fd v p h h' e e' =
    let (sums, lock, req_q, retry_q) = make_tally hlr nr fd p h e in
    let fits : length h.req_q < qsize =
      omega (arith, v.queue, ap (λ (x : List ℕ). length x) req_q) in
    let (l, g, same, is) = forward_tally h p true h' fits e' in
    let open_lock : (h.flying).zero_lock ≡ false =
      ap (λ (x : ClLock). x.zero_lock) lock ∙ v.counts in
    let c = grap_cases h.flying l open_lock g in
    let cnt : (h.flying).cnt ≡ (hlr.flying).cnt = ap (λ (x : ClLock). x.cnt) lock in
    let now : (h.flying).now ≡ (hlr.flying).now = ap (λ (x : ClLock). x.now) lock in
    let small : HasRoom n (record h { flying = l; req_q = h.req_q ++ p ∷ [] }) = record {
      pool = omega (arith, sums one, tally-one hlr.req_pool, tally-one h.req_pool, v.pool);
      live = omega (arith, sums zero_at, v.live);
      counts = c.0;
      lock = omega (arith, c.1, c.2, cnt, now, v.lock, v.word);
      word = omega (arith, c.1, cnt, v.word);
      queue =
          omega
            (arith, v.queue, ap (λ (x : List ℕ). length x) req_q, length-append h.req_q (p ∷ []));
    } in
    subst (HasRoom n) (sym is) small

-- One request more.
pub room_step :
    (n : ℕ) (hlr : Handler) (nr : NetReq) (fd : ℕ)
    → HasRoom (suc n) hlr
    → (p : ℕ) × (h : Handler) × (h' : Handler) × (make_request_from_netreq hlr nr fd ≡ some (p, h))
      × (forward_req_to_hlr h p ≡ some (true, h'))
      × HasRoom n h'
room_step n hlr nr fd v = elim (Option-cases (make_request_from_netreq hlr nr fd)) [
  | inl e ↦ absurd (makes_one hlr nr fd (omega (arith, v.pool)) v.live e)
  | inr ((p, h), e) ↦
      let (sums, lock, req_q, retry_q) = make_tally hlr nr fd p h e in
      let (l, g) =
        graps h.flying (ap (λ (x : ClLock). x.zero_lock) lock ∙ v.counts) (
          omega
            (arith, v.lock, ap (λ (x : ClLock). x.now) lock, ap (λ (x : ClLock). x.cnt) lock)) in
      let fits : length h.req_q < qsize =
        omega (arith, v.queue, ap (λ (x : List ℕ). length x) req_q) in
      let (h', e') = forwards h p l fits g in (p, h, h', e, e', left n hlr nr fd v p h h' e e')
]

-- The requests of a buffer that the hash sends to the handler `i`.
abbrev pub routed : (List ℕ → ℕ × ℕ) → ℕ → ℕ → List NetReq → List NetReq
routed hash num_dev i [] = []
routed hash num_dev i (nr ∷ nrs) =
    let rest = routed hash num_dev i nrs in if i == hlr_idx hash num_dev nr then nr ∷ rest else rest

-- The keys are of at most `KEY_LEN` bytes, in an array of `KEY_LEN`.
abbrev pub Fit : List NetReq → Type 0
Fit [] = Unit {0}
Fit (nr ∷ nrs) = (nr.keylen ≤ 32) × (length nr.key ≡ 32) × Fit nrs

pub update_all :
    (P : Handler → Type 0) (hlr : ℕ → Handler) (k : ℕ) (h : Handler)
    → ((i : ℕ) → P (hlr i))
    → P h
    → (i : ℕ) → P (update hlr k h i)
update_all P hlr k h all at i = elim (Bool-cases (i == k)) [
  | inl y ↦ rw y at
  | inr n ↦ rw n (all i)
]

-- The step of the loop, in the queue of each handler.
waiting_step :
    (hlr : ℕ → Handler) (h : Handler) (hash : List ℕ → ℕ × ℕ) (num_dev fd i : ℕ) (nr : NetReq)
    (nrs : List NetReq)
    → waiting h ≡ waiting (hlr (hlr_idx hash num_dev nr)) ++ message fd nr ∷ []
    → waiting (update hlr (hlr_idx hash num_dev nr) h i) ++ messages fd (routed hash num_dev i nrs)
      ≡ waiting (hlr i) ++ messages fd (routed hash num_dev i (nr ∷ nrs))
waiting_step hlr h hash num_dev fd i nr nrs e = elim (Bool-cases (i == hlr_idx hash num_dev nr)) [
  | inl y ↦ rw y (
      ap (λ l. l ++ messages fd (routed hash num_dev i nrs)) e
      ∙ append_assoc (waiting (hlr (hlr_idx hash num_dev nr))) (message fd nr ∷ [])
          (messages fd (routed hash num_dev i nrs))
      ∙ ap (λ k. waiting (hlr k) ++ message fd nr ∷ messages fd (routed hash num_dev i nrs))
          (sym ((==_iff _ _).0 y)))
  | inr n ↦ rw n refl
]

-- Where every handler has room for as many requests as the buffer holds, none waits or fails: the loop
-- handles all of them, and afterwards there wait in the queue of each handler the messages that waited
-- there before and then those of the buffer that the hash of the key sends to it, in their order.
pub process_requests-routed :
    (hash : List ℕ → ℕ × ℕ) (num_dev fd : ℕ) (nrs : List NetReq) (hlr : ℕ → Handler)
    → ((i : ℕ) → IsReady (hlr i))
    → ((i : ℕ) → HasRoom (length nrs) (hlr i))
    → Fit nrs
    → ((process_requests hash num_dev fd nrs hlr).0 ≡ handled)
      × ((i : ℕ)
          → waiting ((process_requests hash num_dev fd nrs hlr).1 i)
            ≡ waiting (hlr i) ++ messages fd (routed hash num_dev i nrs))
unfolding process_requests
process_requests-routed hash num_dev fd [] hlr ready room fit =
    (refl, λ i. sym (append-nil (waiting (hlr i))))
process_requests-routed hash num_dev fd (nr ∷ nrs) hlr ready room (short, key, fit) =
    let k = hlr_idx hash num_dev nr in
    let (p, h, h', e, e', room') = room_step (length nrs) (hlr k) nr fd (room k) in
    let (ready', moved) = made_queued (hlr k) nr fd p h h' (ready k) short key e e' in
    let fewer_all =
      λ (i : ℕ). HasRoom-le (length nrs) (suc (length nrs)) (hlr i) (omega arith) (room i) in
    let (ok, rest) =
      process_requests-routed hash num_dev fd nrs (update hlr k h')
        (update_all IsReady hlr k h' ready ready')
        (update_all (HasRoom (length nrs)) hlr k h' fewer_all room') fit in
    rw (process_requests, e, e')
      (ok, λ i. rest i ∙ waiting_step hlr h' hash num_dev fd i nr nrs moved)
