-- ===== src/Poll/Round.antt =====
-- A whole call of `sc_mgr_poll`.
use sculpt.Base.{ap, arith, ℕ, ◌≡◌, refl, true, none, some, List, ℤ, Distinct, All, ◌∙◌}
use sculpt.Machine.{Mgr, Conn, Kernel, World, Event, ok, log, epoll_wait}
use sculpt.Machine.Since.{now}
use sculpt.Machine.Lost.{Lost, Lost-none, Lost-le, Lost-trans}
use sculpt.Machine.Frame.{Framed, Framed-Fresh, Returns-Ends}
use sculpt.Machine.Holding.{Fresh}
use sculpt.Pool.Frame.{conns_cleanup-Ends}
use sculpt.Machine.Returns.{Returns, returns, Returns-mono, Returns-at}
use sculpt.Code.{Code, ok_code}
use sculpt.Pool.{conns_cleanup}
use sculpt.Pool.Valid.{Valid}
use sculpt.Pool.Cleanup.{CleanedUp, conns_cleanup-CleanedUp}
use sculpt.Poll.{poll, after_wait}
use sculpt.Poll.Batch.{strings_of, Batch, Active, ApartFds, slots_of, Peer, Quiet-none}
use sculpt.Poll.Events.{AllSettled, handle_events-Through}

-- The world in which `epoll_wait` answers.
abbrev pub waiting : ℤ → World → World
waiting timeout_ms v = log (epoll_wait v.mgr.epoll_fd v.mgr.max_events timeout_ms) v

module _ (k : Kernel) (fuel : ℕ) (timeout_ms : ℤ) (w v : World) (cs : List Conn) (free : List ℕ)
    (valid : Valid w.mgr.pool cs free) (swept : conns_cleanup k w ≡ ok tt v) where
  pub swept-Framed : CleanedUp k w cs v × Framed w v
  swept-Framed =
      Returns-at
        (Returns-Ends w (conns_cleanup k w) (conns_cleanup-CleanedUp k w cs free valid)
          (conns_cleanup-Ends k w))
        swept

  -- The pool is valid, the rest of the manager is as it was, but for its address, at most two strings of each request are
  -- left behind, and if the code is SC_OK all the connections of the batch were settled.
  abbrev pub Served : List Peer → Code → World → Type 0
  Served ps r u =
      ((ds : List Conn) × ((free' : List ℕ) × Valid u.mgr.pool ds free'))
      × (u.mgr ≡ record (w.mgr) { pool = u.mgr.pool; addr_info = u.mgr.addr_info })
      × (r ≡ ok_code → AllSettled ps u.trace)
      × Lost w (strings_of ps) u
      × (Fresh w → Fresh u)

  -- On a valid pool, where after the sweep epoll gives a batch of new connections, of active connections whose peers have
  -- gone, and of active connections whose clients send well-formed requests, whole or up to a pause, no two with a slot or a descriptor in common and no
  -- slot's address with the socket's descriptor in its low half, `sc_mgr_poll` ends without a fault in a valid pool, with the
  -- rest of the manager as it was, but for its address. If it returns SC_OK, every connection whose peer had gone was closed, and
  -- every request was answered, by a handler or with 404. Of the memory that it takes, at most 2 + `left` blocks for each request stay
  -- allocated, where `left` bounds what its handler loses, and what was allocated before still is. Where a request comes, memory has to be granted, the
  -- endpoints need paths, those that take the URI need handlers that end, read nothing, leave the manager alone and lose at most
  -- `left` blocks, and the headers have to be fewer than the fuel, a piece of one before a pause counted.
  pub poll-Served :
      (ps : List Peer) (es : List Event)
      → k.ready (waiting timeout_ms v).trace ≡ some es
      → Batch k fuel (waiting timeout_ms v) ps es
      → ((ds : List Conn) → v.mgr.pool.conns ≡ some ds → All (Active ds) ps)
      → Distinct (slots_of ps)
      → ApartFds ps
      → Returns (Served ps) (poll k fuel true timeout_ms w)
  unfolding poll after_wait
  poll-Served ps es ready batch actives apart fds =
      let ((ds, (free', valid'), _, _), frame) = swept-Framed in
      let u = waiting timeout_ms v in
      rw (swept, ready)
        (Returns-mono
          (handle_events-Through k fuel u u batch
            (record {
              slots = ds;
              free = free';
              valid = valid';
              actives = actives ds valid'.array;
              mgr = refl;
              fresh = λ h. h;
              quiet = Quiet-none u u ps now;
            })
            apart fds)
          λ r x (st, _, done, lost).
            let lost' : Lost v (strings_of ps) x = record {
              blocks = lost.blocks;
              count = lost.count;
              live = lost.live;
              new = lost.new;
            } in
            (
              (st.slots, (st.free, st.valid)),
              st.mgr
                  ∙ ap (λ (m : Mgr). record m { pool = x.mgr.pool; addr_info = x.mgr.addr_info })
                      frame.mgr,
              done,
              Lost-le w x _ (strings_of ps) (omega arith)
                  (Lost-trans w v x 0 (strings_of ps) (Lost-none w v frame.live) lost'),
              λ h. st.fresh (Framed-Fresh w v frame h),
            ))

  -- A wait that fails leaves the round at that.
  pub poll_unready :
      k.ready (waiting timeout_ms v).trace ≡ none
      → Returns (λ _ u. u ≡ waiting timeout_ms v) (poll k fuel true timeout_ms w)
  unfolding poll after_wait
  poll_unready unready = rw (swept, unready) (returns refl)
