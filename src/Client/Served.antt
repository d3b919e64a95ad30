-- ===== src/Client/Served.antt =====
-- The bulks of the client of src/client.cc at the server.
use mathlib.Core.Path.{subst}
use udepot_hopscotch.Base.{
  ℕ, zero, suc, ◌+◌, ◌-◌, ◌/◌, ◌≤◌, ◌<◌, ◌≡◌, refl, ◌∙◌, sym, ap, inl, inr, Bool-cases, List, [],
  ◌∷◌, ◌++◌, arith, length, length-take, take, update, ◌==◌, if◌then◌else◌,
}
use udepot_hopscotch.Handler.{NetReq, Handler, Slot}
use udepot_hopscotch.Handler.Flow.{System}
use udepot_hopscotch.Handler.Flow.Arrays.{HasArrays}
use udepot_hopscotch.Handler.Serve.{serve_all}
use udepot_hopscotch.Keygen.{Keygen, digits, fill_keys, keygen_init}
use udepot_hopscotch.Wire.{netreq_size, send_request_bulk, Arrival, received, read_sock_bulk}
use udepot_hopscotch.Wire.Codec.{AllPacked}
use udepot_hopscotch.Master.{max_netreq_buf, process_request}
use udepot_hopscotch.Master.Route.{waiting, messages}
use udepot_hopscotch.Master.Total.{Fit, routed}
use udepot_hopscotch.Master.Answer.{answers}
use udepot_hopscotch.Master.Reached.{IsReached, process_request-reached}
use udepot_hopscotch.Client.{next_seq, load_bulk}
use udepot_hopscotch.Client.Load.{
  load_requests, smaller, smaller_le, load_bulk_lem, length-load_requests,
}

length-digits : (rand : ℕ → ℕ) (n c : ℕ) → length (digits rand n c) ≡ n
unfolding digits
length-digits rand zero c = refl
length-digits rand (suc n) c = ap suc (length-digits rand n (c + 1))

-- The keys of a pool from the index `lo` to `hi` have 32 bytes.
abbrev pub Keys : (ℕ → List ℕ) → ℕ → ℕ → Type 0
Keys pool lo hi = (k : ℕ) → lo ≤ k → k < hi → length (pool k) ≡ 32

longer :
    (pool : ℕ → List ℕ) (i : ℕ) (fresh : List ℕ)
    → Keys pool 0 i
    → length fresh ≡ 32
    → Keys (update pool i fresh) 0 (i + 1)
longer pool i fresh v size q a b = elim (Bool-cases (q == i)) [
  | inl y ↦ ap (λ t. length (if t then fresh else pool q)) y ∙ size
  | inr n ↦ ap (λ t. length (if t then fresh else pool q)) n ∙ v q a (ground arith)
]

fill_keys-Keys :
    (rand : ℕ → ℕ) (n i c : ℕ) (pool : ℕ → List ℕ)
    → Keys pool 0 i
    → Keys (fill_keys rand 32 n i c pool) 0 (i + n)
unfolding fill_keys
fill_keys-Keys rand zero i c pool v k lo hi = v k lo (omega arith)
fill_keys-Keys rand (suc n) i c pool v k lo hi =
    let fresh = 117 ∷ 115 ∷ 101 ∷ 114 ∷ digits rand (32 - 4) c in
    let size : length fresh ≡ 32 = omega (arith, length-digits rand (32 - 4) c) in
    fill_keys-Keys rand n (i + 1) (c + (32 - 4)) (update pool i fresh) (longer pool i fresh v size)
      k lo (omega arith)

load_requests-AllPacked :
    (pool : ℕ → List ℕ) (i n seq_num : ℕ)
    → Keys pool i (i + n)
    → AllPacked (load_requests pool i n seq_num) × Fit (load_requests pool i n seq_num)
load_requests-AllPacked pool i zero seq_num v = (tt, tt)
load_requests-AllPacked pool i (suc n) seq_num v =
    let (packed, fit) =
      load_requests-AllPacked pool (i + 1) n (next_seq seq_num)
        (λ k lo hi. v k (omega arith) (omega arith)) in
    let bytes = length-take 32 (pool i) (omega (arith, v i (omega arith) (omega arith))) in
    (
      (
        record { keylen = omega arith; seq_num = omega arith; key = bytes; kv_size = omega arith },
        packed,
      ),
      (omega arith, bytes, fit),
    )

IsReached-le :
    (hash : List ℕ → ℕ × ℕ) (req_arr : ℕ → Slot) (m n : ℕ) (s : System)
    → m ≤ n
    → IsReached hash req_arr n s
    → IsReached hash req_arr m s
IsReached-le hash req_arr m n s le r = record {
  run = r.run;
  none_made = r.none_made;
  no_retry = r.no_retry;
  room = omega (arith, r.room);
}

-- A bulk that the inner loop of `load_kvpairs` makes of the keys of `keygen_init` is served: where every
-- handler is in a state of a run, with nothing to retry and with room for as many requests as a bulk
-- has, the handlers acknowledge each request of the bulk that a call of `__process_request` reads, once,
-- after the messages that waited before and in their order.
pub load_bulk-answers :
    (hash : List ℕ → ℕ × ℕ) (num_dev fd : ℕ) (req_arr : ℕ → Slot) (rs : List Arrival)
    (s : ℕ → System) (b left : List ℕ) (rand : ℕ → ℕ) (nr_key load_cnt more n seq_num : ℕ)
    → HasArrays req_arr
    → load_cnt + more ≡ nr_key
    → ((i : ℕ) → IsReached hash req_arr n (s i))
    → let nrs =
        (load_bulk n (record (keygen_init rand nr_key 32) { load_cnt = load_cnt }) seq_num).0 in
      read_sock_bulk max_netreq_buf netreq_size rs (send_request_bulk nrs) ≡ (received b, left)
      → (i : ℕ)
      → let hlr : ℕ → Handler = λ j. (s j).hlr in
        let ms =
          waiting (hlr i)
          ++ messages fd (routed hash num_dev i (take (length b / netreq_size) nrs)) in
        (serve_all hash
          (length ms)
          ((process_request hash num_dev fd rs (send_request_bulk nrs) hlr).1 i)).0
        ≡ answers ms
unfolding keygen_init
load_bulk-answers hash num_dev fd req_arr rs s b left rand nr_key load_cnt more n seq_num arrays all
      reached e i =
    let kg : Keygen = record (keygen_init rand nr_key 32) { load_cnt = load_cnt } in
    let m = smaller n more in
    let (few, within) = smaller_le n more in
    let is : (load_bulk n kg seq_num).0 ≡ load_requests kg.key_pool load_cnt m seq_num =
      ap (λ r. r.0) (load_bulk_lem n more kg seq_num all) in
    let keys : Keys kg.key_pool load_cnt (load_cnt + m) = λ k lo hi.
      fill_keys-Keys rand nr_key 0 0 (λ j. []) (λ q x y. absurd (omega arith)) k (omega arith)
        (omega (arith, within, all)) in
    let (packed, fit) = load_requests-AllPacked kg.key_pool load_cnt m seq_num keys in
    let size : length (load_bulk n kg seq_num).0 ≤ n = omega (
      arith,
      few,
      ap (λ (l : List NetReq). length l) is,
      length-load_requests kg.key_pool load_cnt m seq_num,
    ) in
    process_request-reached hash num_dev fd req_arr rs (load_bulk n kg seq_num).0 s b left arrays
      (subst AllPacked (sym is) packed) (subst Fit (sym is) fit)
      (λ j. IsReached-le hash req_arr _ n (s j) size (reached j)) e i
