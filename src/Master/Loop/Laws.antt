-- ===== src/Master/Loop/Laws.antt =====
-- What the loop of `master_thread` of src/master.c does with the events of several calls of epoll_wait.
use udepot_hopscotch.Base.{ℕ, ◌≡◌, refl, ◌∙◌, sym, ap, List, [], ◌∷◌, ◌++◌}
use udepot_hopscotch.Wire.{netreq_size, Arrival, closed, read_sock_bulk}
use udepot_hopscotch.Master.{max_netreq_buf, process_request, disconnected}
use udepot_hopscotch.Handler.{Handler}
use udepot_hopscotch.Master.Loop.{
  Front, Event, readable, ThreadEnd, polling, stopped, blocked, faulted, Wait, ready, wait_failed,
  after_request, process_event, after, process_events, master_thread, remove,
}

module _ (hash : List ℕ → ℕ × ℕ) (num_dev : ℕ) where
  after-after :
      (r : ThreadEnd × Front) (f g : Front → ThreadEnd × Front)
      → after (after r f) g ≡ after r (λ m. after (f m) g)
  after-after (polling, m) f g = refl
  after-after (stopped, m) f g = refl
  after-after (blocked, m) f g = refl
  after-after (faulted, m) f g = refl

  process_events-append :
      (es fs : List Event) (m : Front)
      → process_events hash num_dev (es ++ fs) m
        ≡ after (process_events hash num_dev es m) (process_events hash num_dev fs)
  unfolding process_events
  process_events-append [] fs m = refl
  process_events-append (e ∷ es) fs m =
      ap (after (process_event hash num_dev e m)) (λ i x. process_events-append es fs x i)
      ∙ sym (
          after-after (process_event hash num_dev e m) (process_events hash num_dev es)
            (process_events hash num_dev fs))

  hangs_up :
      (fd : ℕ) (rs : List Arrival) (stream left : List ℕ) (hlr : ℕ → Handler)
      → read_sock_bulk max_netreq_buf netreq_size rs stream ≡ (closed, left)
      → process_request hash num_dev fd rs stream hlr ≡ (disconnected, hlr, left)
  unfolding process_request
  hangs_up fd rs stream left hlr e = rw (process_request, e) (λ i. (disconnected, hlr, (e i).1))

  disconnects :
      (fd : ℕ) (rs : List Arrival) (stream left : List ℕ) (m : Front)
      → read_sock_bulk max_netreq_buf netreq_size rs stream ≡ (closed, left)
      → process_event hash num_dev (readable fd rs stream) m
        ≡ (stopped, record m { clients = remove fd m.clients })
  unfolding process_event after_request
  disconnects fd rs stream left m e = ap (after_request fd m) (hangs_up fd rs stream left m.hlr e)

  master_thread-append :
      (ws vs : List Wait) (m : Front)
      → master_thread hash num_dev (ws ++ vs) m
        ≡ after (master_thread hash num_dev ws m) (master_thread hash num_dev vs)
  unfolding master_thread
  master_thread-append [] vs m = refl
  master_thread-append (ready es ∷ ws) vs m =
      ap (after (process_events hash num_dev es m)) (λ i x. master_thread-append ws vs x i)
      ∙ sym (
          after-after (process_events hash num_dev es m) (master_thread hash num_dev ws)
            (master_thread hash num_dev vs))
  master_thread-append (wait_failed ∷ ws) vs m = refl

  -- Once a client closes its socket, the thread stops: the events that the same call of epoll_wait reports
  -- after that one, and those of all later calls, are not handled, whatever they are.
  pub master_thread-disconnect :
      (before later : List Event) (ws vs : List Wait) (m m' m'' : Front) (fd : ℕ)
      (rs : List Arrival) (stream left : List ℕ)
      → master_thread hash num_dev ws m ≡ (polling, m')
      → process_events hash num_dev before m' ≡ (polling, m'')
      → read_sock_bulk max_netreq_buf netreq_size rs stream ≡ (closed, left)
      → master_thread hash num_dev (ws ++ ready (before ++ readable fd rs stream ∷ later) ∷ vs) m
        ≡ (stopped, record m'' { clients = remove fd m''.clients })
  unfolding master_thread process_events
  master_thread-disconnect before later ws vs m m' m'' fd rs stream left run events gone =
      master_thread-append ws (ready (before ++ readable fd rs stream ∷ later) ∷ vs) m
      ∙ ap
          (λ r.
            after r
              (master_thread hash num_dev (ready (before ++ readable fd rs stream ∷ later) ∷ vs)))
          run
      ∙ ap (λ r. after r (master_thread hash num_dev vs))
          (process_events-append before (readable fd rs stream ∷ later) m'
            ∙ ap (λ r. after r (process_events hash num_dev (readable fd rs stream ∷ later))) events
            ∙ ap (λ r. after r (process_events hash num_dev later))
                (disconnects fd rs stream left m'' gone))
