-- ===== src/Manager/Watch.antt =====
-- `sc_mgr_epoll_init` on every branch.
use sculpt.Base.{
  false, [], ℕ, ◌+◌, ◌==◌, if◌then◌else◌, ℤ, ◌*◌, ◌≡◌, ◌≢◌, refl, true, none, some, ◌∷◌, ◌==ℤ◌,
  minus_one, ◌⊎◌, inl, inr, Bool-cases, ne_of_==ℤ,
}
use sculpt.Machine.{
  Call, Trace, ok, World, Kernel, fcntl_get, fcntl_set, epoll_create, epoll_ctl, add, fd, malloc,
}
use sculpt.Machine.Heap.{alloc}
use sculpt.Machine.Returns.{Returns, returns}
use sculpt.Code.{Code, ok_code}
use sculpt.Machine.Occurs.{Ends}
use sculpt.Manager.{epoll_init, watch_socket, alloc_events, event_size}

-- The manager watches its socket: an epoll descriptor, the socket in it, and an array for the events.
pub record Watching (k : Kernel) (w : World) (r : Code) (v : World) : Type 0 where
  pub code : r ≡ ok_code
  pub epoll_fd : v.mgr.epoll_fd ≢ minus_one
  pub added :
      Ends k
        (malloc (w.mgr.max_events * event_size) ∷ [])
        (epoll_ctl (add (fd w.mgr.fd)) v.mgr.epoll_fd w.mgr.fd)
        false
        v.trace
  pub events : v.mgr.events ≡ some w.next_block
  pub live : (x : ℕ) → v.live x ≡ (if x == w.next_block then true else w.live x)
  pub next_block : v.next_block ≡ w.next_block + 1

-- It does not, since the last call failed, and no memory was taken.
pub record Unwatched (k : Kernel) (w : World) (r : Code) (v : World) : Type 0 where
  pub code : r ≢ ok_code
  pub events : (v.mgr.events ≡ w.mgr.events) ⊎ (v.mgr.events ≡ none)
  pub live : v.live ≡ w.live
  pub cause : ((c : Call) × Ends k [] c true v.trace) ⊎ (k.grants v.trace ≡ false)

module _ (k : Kernel) (w : World) where
  abbrev pub Watched : Code → World → Type 0
  Watched r v =
      (v.mgr ≡ record (w.mgr) { epoll_fd = v.mgr.epoll_fd; events = v.mgr.events })
      × (Watching k w r v ⊎ Unwatched k w r v)

  quit :
      (e : ℤ) (c : Call) (t : Trace) (r : Code)
      → r ≢ ok_code
      → (k.result (c ∷ t) ==ℤ minus_one) ≡ true
      → Returns Watched (ok r (record w { mgr = record (w.mgr) { epoll_fd = e }; trace = c ∷ t }))
  quit e c t r bad failed = returns (
    refl,
    inr (record { code = bad; events = inl refl; live = refl; cause = inl (c, (t, refl, failed)) }),
  )

  -- On a manager `sc_mgr_epoll_init` never faults and changes only its epoll descriptor and its
  -- events. With SC_OK the descriptor is not -1, the listening socket was added to it without an error and the events
  -- are in a new live block; with another code its last call failed, no block was allocated, and the events are as before or
  -- NULL.
  pub epoll_init-Watched : Returns Watched (epoll_init k true w)
  unfolding epoll_init watch_socket alloc_events alloc
  epoll_init-Watched =
      let e = k.result (epoll_create ∷ w.trace) in
      let t1 = fcntl_get w.mgr.fd ∷ epoll_create ∷ w.trace in
      let t2 = fcntl_set w.mgr.fd ∷ t1 in
      let t3 = epoll_ctl (add (fd w.mgr.fd)) e w.mgr.fd ∷ t2 in
      elim (Bool-cases (e ==ℤ minus_one)) [
        | inl a ↦ rw a (quit e _ _ _ (λ h. cc) a)
        | inr a ↦ rw a (elim (Bool-cases (k.result t1 ==ℤ minus_one)) [
          | inl b ↦ rw b (quit e _ _ _ (λ h. cc) b)
          | inr b ↦ rw b (elim (Bool-cases (k.result t2 ==ℤ minus_one)) [
            | inl c ↦ rw c (quit e _ _ _ (λ h. cc) c)
            | inr c ↦ rw c (elim (Bool-cases (k.result t3 ==ℤ minus_one)) [
              | inl d ↦ rw d (quit e _ _ _ (λ h. cc) d)
              | inr d ↦
                  rw d (elim (Bool-cases (k.grants (malloc (w.mgr.max_events * event_size) ∷ t3))) [
                    | inl g ↦ rw g (
                        returns (
                          refl,
                          inl (record {
                            code = refl;
                            epoll_fd = ne_of_==ℤ e minus_one a;
                            added = (t2, refl, d);
                            events = refl;
                            live = λ x. refl;
                            next_block = refl;
                          }),
                        ))
                    | inr g ↦ rw g (
                        returns (
                          refl,
                          inr (record {
                            code = λ h. cc;
                            events = inr refl;
                            live = refl;
                            cause = inr g;
                          }),
                        ))
                  ])
            ])
          ])
        ])
      ]
