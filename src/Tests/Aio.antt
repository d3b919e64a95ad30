-- ===== src/Tests/Aio.antt =====
-- A callback that is submitted, done and called, and one that io_submit refuses, in the model of src/aio.c.
use udepot_hopscotch.Base.{
  ℕ, ◌+◌, ◌≡◌, ◌↔◌, refl, Bool, true, false, none, some, [], ◌∷◌, ◌++◌, ◌==◌, ap, if◌then◌else◌,
  update, arith, length,
}
use udepot_hopscotch.Queue.Spec.{enqueue, dequeue}
use udepot_hopscotch.Handler.{qsize, fill_pool}
use udepot_hopscotch.Handler.Flow.{tally}
use udepot_hopscotch.Aio.{
  Pools, Callback, Iocb, Opcode, make_callback, submit, reap_event, init_pools,
}
use udepot_hopscotch.Aio.Flow.{
  update_at, System, make, accept, refuse, complete, reap, Reach, start, next, calls, call_of,
  data_of, IsAio,
}
use udepot_hopscotch.Aio.Flow.Invariant.{idle, init_pools-IsAio}
use udepot_hopscotch.Aio.Flow.Progress.{make_callback-exhausted, run-drained}

abbrev iocb_arr : ℕ → Iocb
iocb_arr q = record { opcode = Opcode.pread; buf = 0; nbytes = 0; offset = 0; cb = 0 }

abbrev cb_arr : ℕ → Callback
cb_arr p = record { func = 0; arg = 0; iocb = 0 }

abbrev begin : System
begin = idle iocb_arr cb_arr

-- The first block of either pool.
abbrev p : ℕ
p = (dequeue (begin.hlr).cb_pool).0

p_some : (p == 0) ≡ false
unfolding dequeue init_pools fill_pool enqueue
p_some = refl

abbrev made_pools : Pools
made_pools = record (begin.hlr) {
  cb_pool = (dequeue (begin.hlr).cb_pool).1;
  cb_arr = update (begin.hlr).cb_arr p (record { func = 7; arg = 9; iocb = 0 });
}

abbrev made_one : System
made_one = record begin { hlr = made_pools; held = p ∷ []; made = (7, 9) ∷ [] }

makes : make_callback begin.hlr 7 9 ≡ some (p, made_pools)
unfolding make_callback
makes = rw (make_callback, p_some) refl

reach_made : Reach begin made_one
reach_made = next begin begin made_one (start begin) (make begin 7 9 p made_pools makes)

abbrev q : ℕ
q = (dequeue made_pools.iocb_pool).0

q_some : (q == 0) ≡ false
unfolding init_pools
q_some = p_some

abbrev sent : Bool → Pools
sent accepted = record made_pools {
  iocb_pool = (dequeue made_pools.iocb_pool).1;
  iocb_arr =
      update made_pools.iocb_arr q
        (record { opcode = Opcode.pread; buf = 3; nbytes = 512; offset = 4096; cb = p });
  cb_arr = update made_pools.cb_arr p (record (made_pools.cb_arr p) { iocb = q });
  aio_ctx = if accepted then q ∷ made_pools.aio_ctx else made_pools.aio_ctx;
}

sends :
    (accepted : Bool)
    → submit Opcode.pread made_pools 4096 512 3 p accepted ≡ some (accepted, sent accepted)
unfolding submit
sends accepted = rw (submit, q_some) refl

abbrev in_kernel : System
in_kernel = record made_one { hlr = sent true; held = [] }

abbrev done : System
done = record in_kernel {
  hlr = record (sent true) { aio_ctx = [] };
  events = q ∷ [];
  res = update in_kernel.res q 512;
}

abbrev reaped_pools : Pools
reaped_pools = record (done.hlr) {
  called = (done.hlr).called ++ call_of done.hlr (data_of done.hlr q) ∷ [];
  iocb_pool = (enqueue qsize q (done.hlr).iocb_pool).1;
  cb_pool = (enqueue qsize (data_of done.hlr q) (done.hlr).cb_pool).1;
}

abbrev reaped : System
reaped = record done { hlr = reaped_pools; events = [] }

res_is : done.res q ≡ 512
res_is = ground arith

size_is : ((done.hlr).iocb_arr q).nbytes ≡ 512
size_is = ap (λ (i : Iocb). i.nbytes) (update_at made_pools.iocb_arr q _)

reaps : reap_event done.hlr q (done.res q) ≡ some reaped_pools
unfolding reap_event
reaps = rw (reap_event, res_is, size_is) refl

reach_reaped : Reach begin reaped
unfolding init_pools
reach_reaped =
    next begin done reaped
      (next begin in_kernel done
        (next begin made_one in_kernel reach_made
          (accept made_one Opcode.pread 4096 512 3 p [] [] (sent true) refl (sends true)))
        (complete in_kernel q 512 [] [] refl))
      (reap done q [] reaped_pools refl reaps)

init_pools-IsAio_example : IsAio reaped
init_pools-IsAio_example = init_pools-IsAio iocb_arr cb_arr reaped reach_reaped

make_callback-exhausted_example :
    (make_callback made_pools 7 9 ≡ none)
    ↔ (length made_one.held + (length made_pools.aio_ctx + 0 + 0) ≡ qsize)
make_callback-exhausted_example = make_callback-exhausted iocb_arr cb_arr made_one reach_made 7 9

abbrev refused : System
refused = record made_one {
  hlr = sent false;
  held = [];
  lost = (dequeue made_pools.iocb_pool).0 ∷ [];
}

reach_refused : Reach begin refused
reach_refused =
    next begin made_one refused reach_made
      (refuse made_one Opcode.pread 4096 512 3 p [] [] (sent false) refl (sends false))

-- The callback that was refused is not called.
run-drained_example :
    (length refused.hlr.cb_pool + 1 ≡ qsize)
    × (length refused.hlr.iocb_pool + 1 ≡ qsize)
    × ((g : ℕ × ℕ → ℕ)
        → calls g ((7, 9) ∷ [])
          ≡ calls g refused.hlr.called
            + tally (λ b. g (call_of refused.hlr (data_of refused.hlr b))) refused.lost)
unfolding init_pools
run-drained_example = run-drained iocb_arr cb_arr refused reach_refused refl refl refl
