-- ===== src/Aio.antt =====
-- The callbacks and control blocks of asynchronous I/O: src/aio.c, the events of src/poller.c, the blocks
-- of include/handler.h, and the ends of the reads and writes of src/device.c that stay in memory.
-- A pointer to a block is an index counted from 1, and NULL is 0. What the kernel answers to io_submit, and
-- the results of the events that io_getevents gives, are arguments.
pub mod Flow
use udepot_hopscotch.Base.{
  ℕ, Bool, true, false, Option, none, some, List, [], ◌∷◌, ◌++◌, ◌==◌, if◌then◌else◌, update,
}
use udepot_hopscotch.Queue.Spec.{enqueue, dequeue}
use udepot_hopscotch.Handler.{qsize, fill_pool}

-- `struct callback`, the function and its argument as numbers.
pub record Callback : Type 0 where
  pub func : ℕ
  pub arg : ℕ
  pub iocb : ℕ

pub data Opcode : Type 0 where
  pread : Opcode
  pwrite : Opcode

-- What the program fills in of a `struct iocb`, less the file descriptor; `cb` is its `data`.
pub record Iocb : Type 0 where
  pub opcode : Opcode
  pub buf : ℕ
  pub nbytes : ℕ
  pub offset : ℕ
  pub cb : ℕ

-- The part of `struct handler` that I/O uses: the pools and the blocks. `aio_ctx` is the control blocks that
-- the kernel has, and `called` the calls of callbacks so far.
pub record Pools : Type 0 where
  pub iocb_pool : List ℕ
  pub cb_pool : List ℕ
  pub iocb_arr : ℕ → Iocb
  pub cb_arr : ℕ → Callback
  pub aio_ctx : List ℕ
  pub called : List (ℕ × ℕ)

-- The loops of `handler_init` that fill the pools, on calloc'ed blocks.
unfoldable pub init_pools : (ℕ → Iocb) → (ℕ → Callback) → Pools
unfolding fill_pool
init_pools iocb_arr cb_arr = record {
  iocb_pool = fill_pool qsize 1 [];
  cb_pool = fill_pool qsize 1 [];
  iocb_arr = iocb_arr;
  cb_arr = cb_arr;
  aio_ctx = [];
  called = [];
}

-- `none` is a write through NULL, where the pool is empty.
unfoldable pub make_callback : Pools → ℕ → ℕ → Option (ℕ × Pools)
unfolding dequeue
make_callback hlr func arg =
    let (cb, pool) = dequeue hlr.cb_pool in
    if cb == 0
    then none
    else some (
      cb,
      record hlr {
        cb_pool = pool;
        cb_arr = update hlr.cb_arr cb (record { func = func; arg = arg; iocb = 0 });
      },
    )

-- `aio_read` and `aio_write`, which differ in the io_prep function only; `accepted` is whether io_submit
-- takes the block. `false` is the return code -1, and `none` a write through NULL.
unfoldable pub submit : Opcode → Pools → ℕ → ℕ → ℕ → ℕ → Bool → Option (Bool × Pools)
unfolding dequeue
submit opcode hlr addr_in_byte size buf cb accepted =
    let (iocb, pool) = dequeue hlr.iocb_pool in
    if iocb == 0
    then none
    else some (
      accepted,
      record hlr {
        iocb_pool = pool;
        iocb_arr =
            update hlr.iocb_arr iocb (record {
              opcode = opcode;
              buf = buf;
              nbytes = size;
              offset = addr_in_byte;
              cb = cb;
            });
        cb_arr = update hlr.cb_arr cb (record (hlr.cb_arr cb) { iocb = iocb });
        aio_ctx = if accepted then iocb ∷ hlr.aio_ctx else hlr.aio_ctx;
      },
    )

abbrev pub aio_read : Pools → ℕ → ℕ → ℕ → ℕ → Bool → Option (Bool × Pools)
aio_read = submit Opcode.pread

abbrev pub aio_write : Pools → ℕ → ℕ → ℕ → ℕ → Bool → Option (Bool × Pools)
aio_write = submit Opcode.pwrite

-- The end of `dev_abs_read` from memory and of `dev_abs_write`: the callback runs at once, and its block goes
-- back. A callback uses no pool here.
unfoldable pub call_now : Pools → ℕ → Pools
unfolding enqueue
call_now hlr cb = record hlr {
  called = hlr.called ++ ((hlr.cb_arr cb).func, (hlr.cb_arr cb).arg) ∷ [];
  cb_pool = (enqueue qsize cb hlr.cb_pool).1;
}

-- EINVAL of errno.h.
abbrev pub einval : ℕ
einval = 22

-- The body of the loop of `aio_poller` on the event of one block, with its result; `none` is `abort()`.
unfoldable pub reap_event : Pools → ℕ → ℕ → Option Pools
unfolding enqueue
reap_event hlr iocb res =
    let cb = (hlr.iocb_arr iocb).cb in
    let done = record hlr {
      called = hlr.called ++ ((hlr.cb_arr cb).func, (hlr.cb_arr cb).arg) ∷ [];
      iocb_pool = (enqueue qsize iocb hlr.iocb_pool).1;
      cb_pool = (enqueue qsize cb hlr.cb_pool).1;
    } in
    if res == einval
    then some done
    else if res == (hlr.iocb_arr iocb).nbytes
    then some done
    else none
