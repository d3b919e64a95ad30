-- ===== src/Master/Loop.antt =====
-- The loop of `master_thread` of src/master.c, with `__accept_new_client`: the events of each epoll_wait in
-- their order. What accept, fcntl and epoll_ctl report, and what the sockets have, are arguments.
pub mod Laws
pub mod Answers
use udepot_hopscotch.Base.{ℕ, Bool, Option, none, some, List, [], ◌∷◌, ◌==◌, if◌then◌else◌}
use udepot_hopscotch.Wire.{Arrival}
use udepot_hopscotch.Handler.{Handler}
use udepot_hopscotch.Master.{
  ProcessEnd, handled, waits, failed, fault, no_input, disconnected, reading, ended,
  process_request,
}

-- The handlers, and the clients' sockets that epoll watches.
pub record Front : Type 0 where
  pub hlr : ℕ → Handler
  pub clients : List ℕ

-- The socket that accept gives, and whether the fcntl that sets O_NONBLOCK and epoll_ctl succeed.
pub record Accepting : Type 0 where
  pub fd : Option ℕ
  pub nonblock : Bool
  pub added : Bool

-- `none` is the return code -1.
unfoldable pub accept_new_client : Accepting → Front → Option ℕ × Front
accept_new_client a mas = elim a.fd [
  | none ↦ (none, mas)
  | some fd ↦
      if a.nonblock
      then (if a.added then (some fd, record mas { clients = fd ∷ mas.clients }) else (none, mas))
      else (none, mas)
]

-- A socket that is closed is no longer watched.
unfoldable pub remove : ℕ → List ℕ → List ℕ
remove fd [] = []
remove fd (x ∷ xs) = let rest = remove fd xs in if x == fd then rest else x ∷ rest

-- An event on the socket that listens, or on a client's, with what arrives there.
pub data Event : Type 0 where
  incoming : Accepting → Event
  readable : ℕ → List Arrival → List ℕ → Event

-- The thread goes on; it has left the loop and freed the master; it waits inside a call; or it writes
-- through NULL.
pub data ThreadEnd : Type 0 where
  polling : ThreadEnd
  stopped : ThreadEnd
  blocked : ThreadEnd
  faulted : ThreadEnd

-- What epoll_wait reports: events, none of them on a timeout, or an error.
pub data Wait : Type 0 where
  ready : List Event → Wait
  wait_failed : Wait

-- The next round, where the thread goes on.
abbrev pub after : ThreadEnd × Front → (Front → ThreadEnd × Front) → ThreadEnd × Front
after (polling, mas) again = again mas
after (stopped, mas) again = (stopped, mas)
after (blocked, mas) again = (blocked, mas)
after (faulted, mas) again = (faulted, mas)

-- What the loop does with the return code of `__process_request`, which has closed the socket of a client
-- that is gone.
unfoldable pub after_request : ℕ → Front → ProcessEnd × (ℕ → Handler) × List ℕ → ThreadEnd × Front
after_request fd mas (no_input, hlr, left) = (polling, record mas { hlr = hlr })
after_request fd mas (disconnected, hlr, left) =
    (stopped, record mas { hlr = hlr; clients = remove fd mas.clients })
after_request fd mas (reading, hlr, left) = (blocked, record mas { hlr = hlr })
after_request fd mas (ended handled, hlr, left) = (polling, record mas { hlr = hlr })
after_request fd mas (ended (waits p nrs), hlr, left) = (blocked, record mas { hlr = hlr })
after_request fd mas (ended failed, hlr, left) = (stopped, record mas { hlr = hlr })
after_request fd mas (ended fault, hlr, left) = (faulted, record mas { hlr = hlr })

module _ (hashing_key_128 : List ℕ → ℕ × ℕ) (num_dev : ℕ) where
  -- The body of the loop over the events.
  unfoldable pub process_event : Event → Front → ThreadEnd × Front
  process_event (incoming a) mas =
      let (fd, mas') = accept_new_client a mas in
      elim fd [ none ↦ (stopped, mas') | some _ ↦ (polling, mas') ]
  process_event (readable fd rs stream) mas =
      after_request fd mas (process_request hashing_key_128 num_dev fd rs stream mas.hlr)

  unfoldable pub process_events : List Event → Front → ThreadEnd × Front
  process_events [] mas = (polling, mas)
  process_events (e ∷ es) mas = after (process_event e mas) (process_events es)

  -- The loop of `master_thread` over what its calls of epoll_wait report.
  unfoldable pub master_thread : List Wait → Front → ThreadEnd × Front
  master_thread [] mas = (polling, mas)
  master_thread (ready es ∷ ws) mas = after (process_events es mas) (master_thread ws)
  master_thread (wait_failed ∷ ws) mas = (stopped, mas)
