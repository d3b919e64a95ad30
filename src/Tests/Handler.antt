-- ===== src/Tests/Handler.antt =====
-- A handler of src/handler.c with the requests of two messages.
use mathlib.Core.Path.{subst}
use udepot_hopscotch.Base.{
  take, sym, ◌∙◌, ℕ, ◌+◌, ◌*◌, ◌^◌, ◌≤◌, ◌<◌, ◌≡◌, length, ◌≢◌, refl, ◌⊎◌, Bool, true, false,
  Option, none, some, List, [], ◌∷◌, arith, replicate, get_or,
}
use udepot_hopscotch.Request.{ReqType}
use udepot_hopscotch.CondLock.{cl_init, cl_grap}
use udepot_hopscotch.Queue.Spec.{enqueue, dequeue}
use udepot_hopscotch.Handler.{
  Handler, NetReq, Slot, fill_pool, handler_init, make_request_from_netreq, forward_req_to_hlr,
  retry_req_to_hlr, add_request_info,
}
use udepot_hopscotch.Handler.Flow.{System, Reach, make, forward, IsFlow}
use udepot_hopscotch.Handler.Flow.Invariant.{idle, handler_init-IsFlow}
use udepot_hopscotch.Handler.Flow.Progress.{handler_never_fails}
use udepot_hopscotch.Hopscotch.Table.{max_hop, slot}
use udepot_hopscotch.Hopscotch.Ops.{idx_of, tag_of}
use udepot_hopscotch.Hopscotch.Table.Search.{HasTag}
use udepot_hopscotch.Hopscotch.Drive.{run_get}
use udepot_hopscotch.Hopscotch.Drive.Get.{GetsFirst, pair_at}
use udepot_hopscotch.Handler.Lookup.{hop_request, make_request-GetsFirst}
use udepot_hopscotch.Tests.Hopscotch.{disk, one_pair}

abbrev pub hash : List ℕ → ℕ × ℕ
hash key = (get_or key 0 0 * 2 ^ 35 + 5 * 2 ^ 27 + 3, 9)

-- A request of the calloc'ed array.
abbrev pub blank : Slot
blank = record {
  type = ReqType.padding;
  seq_num = 0;
  key = record { key = replicate 256 0; len = 0; hash_low = 0; hash_high = 0 };
  value = none;
  value_len = 0;
  has_params = false;
  cl_sock = 0;
}

abbrev pub req_arr : ℕ → Slot
req_arr p = blank

abbrev pub get_ab : NetReq
get_ab = record {
  type = ReqType.get;
  keylen = 2;
  seq_num = 7;
  key = 97 ∷ 98 ∷ replicate 30 0;
  kv_size = 0;
}

abbrev pub set_b : NetReq
set_b = record {
  type = ReqType.set;
  keylen = 1;
  seq_num = 8;
  key = 98 ∷ replicate 31 0;
  kv_size = 512;
}

-- A handler of three requests.
abbrev pub small : Handler
small = record {
  flying = cl_init 256 false;
  req_q = [];
  retry_q = [];
  req_pool = 1 ∷ 2 ∷ 3 ∷ [];
  req = req_arr;
}

abbrev handler_of : Option (ℕ × Handler) → Handler
handler_of (some (p, h)) = h
handler_of none = small

abbrev made_small : Handler
made_small = handler_of (make_request_from_netreq small get_ab 5)

make_small : make_request_from_netreq small get_ab 5 ≡ some (1, made_small)
unfolding make_request_from_netreq dequeue
make_small = refl

-- The request once completed: its key with the hash, and a buffer.
abbrev completed : Slot
completed = add_request_info hash (made_small.req 1)

-- As many bytes as the grains of an entry, none for an empty one.
abbrev grains_of : ℕ → ℕ → List ℕ
grains_of p n = take (n * 128) (disk p n)

key_tag : tag_of completed.key ≡ 5
unfolding make_request_from_netreq dequeue add_request_info
key_tag = refl

-- The one pair is the only entry with the tag 5.
tagged_slot : (i : ℕ) → (one_pair i).key_fp_tag ≡ 5 → i ≡ 3
tagged_slot i tag = ground arith

read_short :
    (o : ℕ)
    → o < max_hop
    → HasTag one_pair (idx_of completed.key) (tag_of completed.key) o
    → (2 < length (pair_at grains_of one_pair completed.key o))
      × (length (pair_at grains_of one_pair completed.key o) ≤ 4096)
read_short o lt tag =
    subst
      (λ i.
        (2 < length (grains_of (one_pair i).pba (one_pair i).kv_size))
        × (length (grains_of (one_pair i).pba (one_pair i).kv_size) ≤ 4096))
      (sym (tagged_slot (slot (idx_of completed.key) o) (tag ∙ key_tag))) (omega arith, omega arith)

-- Every other slot of the hop is empty, and delivers nothing.
make_request-GetsFirst_example :
    GetsFirst grains_of one_pair completed.key 0
      (run_get grains_of (max_hop + 1) one_pair (hop_request completed))
make_request-GetsFirst_example =
    make_request-GetsFirst hash grains_of one_pair small get_ab 5 1 made_small make_small
      (omega arith) (omega arith) refl read_short

-- The start of a handler, with the request of one message made and forwarded.
abbrev first_made : Handler
first_made = handler_of (make_request_from_netreq (handler_init req_arr) get_ab 5)

make_first : make_request_from_netreq (handler_init req_arr) get_ab 5 ≡ some (1, first_made)
unfolding make_request_from_netreq dequeue handler_init fill_pool enqueue
make_first = refl

abbrev forwarded : Option (Bool × Handler) → Handler
forwarded (some (b, h)) = h
forwarded none = small

abbrev first_queued : Handler
first_queued = forwarded (forward_req_to_hlr first_made 1)

forward_first : forward_req_to_hlr first_made 1 ≡ some (true, first_queued)
unfolding make_request_from_netreq dequeue handler_init fill_pool enqueue forward_req_to_hlr cl_grap
    cl_init
forward_first = refl

abbrev pub one_queued : System
one_queued = record { hlr = first_queued; made = []; hand = [] }

pub one_queued-Reach : Reach hash (idle req_arr) one_queued
one_queued-Reach =
    Reach.next _ (record { hlr = first_made; made = 1 ∷ []; hand = [] }) _
      (Reach.next _ (idle req_arr) _ (Reach.start _)
        (make (idle req_arr) get_ab 5 1 first_made refl make_first))
      (forward (record { hlr = first_made; made = 1 ∷ []; hand = [] }) 1 true first_queued refl
        forward_first)

handler_init-IsFlow_example : IsFlow one_queued
handler_init-IsFlow_example = handler_init-IsFlow hash req_arr one_queued one_queued-Reach

handler_never_fails_example :
    (make_request_from_netreq first_queued set_b 5 ≢ none)
    × ((forward_req_to_hlr first_queued 2 ≡ none)
        ⊎ ((h : Handler) × (forward_req_to_hlr first_queued 2 ≡ some (true, h))))
    × ((retry_req_to_hlr first_queued 2).0 ≡ true)
handler_never_fails_example = handler_never_fails hash req_arr one_queued set_b 5 2 one_queued-Reach

-- Two requests that wait, and one that is free.
abbrev busy : Handler
busy = record small {
  req_q = 2 ∷ 1 ∷ [];
  req_pool = 3 ∷ [];
  req = λ p. record blank { seq_num = p; cl_sock = 5 };
}
