-- ===== src/Lib.antt =====
-- A verification library for the uDepot hopscotch key-value store: a key-value store on a
-- log-structured flash device, with one of two indexes in memory, behind a socket.
--
-- The parts. The front of the server (src/master.c) reads messages from the sockets of its clients
-- (src/util.c, include/type.h) and hands each to the handler of a device, by the hash of its key. A
-- handler (src/handler.c) has a pool of requests (src/request.c), queues for the ones that wait and
-- for the ones to be retried (src/queue.c), and a lock that bounds how many are in flight
-- (src/cond_lock.c). It calls the index that the build selects: uDepot's hopscotch hash table
-- (src/hopscotch.c) or BigKV (src/bigkv_index.c). The index finds or places an entry, and reads or
-- writes the pair through the device (src/device.c), which hands out addresses at the head of its
-- log and keeps the segment that is being filled in memory. A read ends in the callback of the
-- index, which compares the key, and brings the operation back with the parameters that the request
-- carries. A client draws its keys from a generator (src/keygen.c).
--
-- Base is shared by all: tests and conditionals on native numbers, lists, and the first index that
-- passes a test (Base.First). Pair is the layout of a key in front of its value, with the comparison
-- (src/hopscotch.c, include/request.h). Request is include/request.h with the parameter blocks of
-- include/hopscotch.h and include/bigkv_index.h. Hopscotch.Table is the table of src/hopscotch.c
-- with find_matching_tag, fill_entry and find_free_entry; Hopscotch.Ops is hopscotch_set,
-- hopscotch_get and cb_keycmp; Hopscotch.Drive runs one request through its reads and retries.
-- Device is src/device.c with include/device.h; Device.Race is a read right after its segment was
-- flushed. Store puts src/hopscotch.c on it: fetch is what dev_abs_read delivers, from the staged
-- segment, or from a device that has done the writes submitted before, which the source does not
-- wait for (Device.Race); Store.Sound, Store.SetGet, Store.New and Store.Other are about a request
-- to set and what requests to get find after it, and Store.Run about any number of them.
-- BigKv.Bucket and BigKv.Part are the buckets and the partition tables of src/bigkv_index.c,
-- BigKv.Ops is bigkv_index_set and BigKv.Lookup is bigkv_index_get. Queue is the linked list of
-- src/queue.c on a heap, and Queue.Spec the bounded queue of pointers that it stands for, which
-- Handler uses. CondLock is the lock of src/cond_lock.c with the steps of its threads; CondLock.Cond
-- has the operations of it that nothing calls.
--
-- Aio is asynchronous I/O: the callbacks and control blocks of include/handler.h and src/handler.c,
-- aio_read and aio_write of src/aio.c, and the events of src/poller.c; Aio.Flow has the moves of the
-- thread that makes callbacks, the kernel and the thread that takes events as a step relation.
--
-- Handler is the handler with its requests: handler_init, make_request_from_netreq,
-- forward_req_to_hlr, retry_req_to_hlr, get_next_request, add_request_info, net_end_req and a round
-- of request_handler (serve). Handler.Flow has the moves of the thread that receives and the one
-- that handles requests as a step relation; Handler.Prepare, Handler.Lookup and Handler.Serve follow
-- a request from its message to the index, through the index, and through the loop of the handler.
-- Wire is the packed messages as bytes, with send_request, send_request_bulk, read_sock and
-- read_sock_bulk of src/util.c. Master is src/master.c, with __process_request, which joins Wire and
-- Handler: Master.Route and Master.Total are its loop over the requests, Master.Bulk and
-- Master.Answer a bulk from the client to the acknowledgements, and Master.Reached the same for
-- handlers in any state of a run. Master.Loop is __accept_new_client and the loop of master_thread
-- over the events of epoll_wait, with Master.Loop.Answers for the bulks of several clients. Keygen
-- is src/keygen.c, and Client what load_kvpairs and run_bench of src/client.cc send, with
-- Client.Served for a bulk of it at the server. Tests has runs on concrete data.
--
-- State is passed explicitly. An array is a function of its index and a pointer into it is the
-- index; a C integer keeps its wrap-around, written out, where the code can reach it. A call through
-- hlr->read or hlr->write is a value in the result of the operation (Io, SetIo, Call). get_next_pba
-- is a parameter of the operations of both indexes, with the state of the device a type of its own;
-- what a read delivers is the parameter fetch of a run. Store fills both in with the device. The
-- hash of a key and the values of rand are parameters; what a socket delivers is a list of arrivals.
--
-- Bounds. A search of the hopscotch table makes at most 32 rounds (MAX_HOP); a request to get makes
-- at most 33 calls, one for each offset and one that finds nothing; a request to set makes at most
-- 34, one more for the write after a match. The loop of read_sock recurs on the arrivals; the result
-- waiting says that more have to come. load_kvpairs has as much fuel as keys, and a round of it
-- sends one at least. No other definition has fuel: loops recur on the rounds left.
--
-- Not modelled: system calls, the creation and the pinning of threads, the clock, statistics and
-- prints; memory is never exhausted. Reads of the device are taken to succeed, although it is opened
-- with O_DIRECT, which wants whole blocks. The ratios of the key generator are taken not to be
-- negative. The release of the lock and the return to the pool that end a request are one move of
-- Handler.Flow. The semaphore of the client is taken to let every request through. The queue of
-- finished I/O (done_q) is left out, the pools of callbacks and control blocks stand in Aio apart
-- from Handler, and left out of Handler is the dispatch that stands behind the continue of
-- request_handler, which Hopscotch.Drive has by itself, and the flag that stops it. hopscotch_delete
-- and bigkv_index_delete do nothing. The field reserve of a BigKV entry, which is always 0, is left
-- out. src/lfqueue.c is called by nothing. src/server.cc is an earlier server that the Makefile does
-- not build.
pub mod Base
pub mod Pair
pub mod Request
pub mod Queue
pub mod CondLock
pub mod Device
pub mod BigKv
pub mod Hopscotch
pub mod Store
pub mod Aio
pub mod Handler
pub mod Wire
pub mod Master
pub mod Keygen
pub mod Client
pub mod Tests
