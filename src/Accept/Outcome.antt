-- ===== src/Accept/Outcome.antt =====
-- `create_new_connection`: what every branch leaves of the pool and of the accepted descriptor.
use sculpt.Base.{
  subst, ℕ, ◌≡◌, refl, List, [], ◌∷◌, ℤ, set, inl, inr, get_elem?-set_self, lt_of_get_elem?,
  set-set, Bool-cases, eq_of_==ℤ, minus_one, ◌==ℤ◌,
}
use sculpt.Machine.{Conn, World, Kernel, log, time}
use sculpt.Machine.Returns.{Returns, returns, and_then-Returns, Returns-mono}
use sculpt.Code.{Code, continue_code}
use sculpt.Pool.Valid.{Valid}
use sculpt.Pool.Take.{claimed, get_free-Given, full_test, room_test}
use sculpt.Accept.{refuse, create_new_connection}
use sculpt.Accept.Fates.{Disposed}
use sculpt.Accept.Settle.{Settled, arrival, accept_into-Settled, Rejected-set}

module _ (k : Kernel) where
  Settled-set :
      (efd : ℤ) (cs : List Conn) (free : List ℕ) (i : ℕ) (c : Conn) (fd : ℤ) (r : Code) (v : World)
      → Settled k efd (set cs i c) free i fd r v
      → Settled k efd cs free i fd r v
  Settled-set efd cs free i c fd r v (inl adm) = inl (record {
    code = adm.code;
    slot = adm.slot;
    valid = rw (← set-set cs i c adm.slot) adm.valid;
    is_on = adm.is_on;
    slot_fd = adm.slot_fd;
    opened = adm.opened;
    registered = adm.registered;
  })
  Settled-set efd cs free i c fd r v (inr rej) = inr (Rejected-set k efd cs free i c fd r v rej)

  -- What becomes of a pending connection, by the free list: with no slot free it is refused and the
  -- manager keeps all but its address; otherwise it is admitted in the first free slot, or that slot is free again.
  abbrev pub Outcome : World → List Conn → List ℕ → Code → World → Type 0
  Outcome w cs [] r v =
      (r ≡ continue_code)
      × (v.mgr ≡ record (w.mgr) { addr_info = v.mgr.addr_info })
      × Disposed (arrival k w) v.trace
  Outcome w cs (i ∷ free) r v = Settled k w.mgr.epoll_fd cs free i (arrival k (log time w)) r v

  refuse-Outcome : (w : World) (cs : List Conn) → Returns (Outcome w cs []) (refuse k w)
  unfolding refuse
  refuse-Outcome w cs = elim (Bool-cases (arrival k w ==ℤ minus_one)) [
    | inl e ↦ rw e (returns (refl, refl, inl (eq_of_==ℤ (arrival k w) minus_one e)))
    | inr e ↦ rw e (returns (refl, refl, inr (inl refl)))
  ]

  -- On a valid pool `create_new_connection` never faults and leaves a valid pool. With no free slot
  -- nothing of the manager but its address changes. Otherwise it returns SC_OK with the accepted descriptor active in the
  -- first free slot, the last call having added it to epoll without an error, or another code with that slot at the head of
  -- the free list again, and then `accept`, `fcntl` or `epoll_ctl` had returned -1. In every case that is not SC_OK a
  -- descriptor that was accepted has been closed.
  pub create_new_connection-Outcome :
      (w : World) (cs : List Conn) (free : List ℕ)
      → Valid w.mgr.pool cs free
      → Returns (Outcome w cs free) (create_new_connection k w)
  unfolding create_new_connection
  create_new_connection-Outcome w cs [] valid = rw (full_test k w cs valid) (refuse-Outcome w cs)
  create_new_connection-Outcome w cs (i ∷ free) valid = rw (room_test k w cs i free valid) (
      and_then-Returns (get_free-Given k w cs (i ∷ free) valid) λ r u got.
        let c = claimed (k.clock (time ∷ w.trace)) got.old in
        let at_i = get_elem?-set_self cs i c (lt_of_get_elem? cs i got.at_slot) in
        let fd_eq : u.mgr.fd ≡ w.mgr.fd = rw got.frame refl in
        let epoll_eq : u.mgr.epoll_fd ≡ w.mgr.epoll_fd = rw got.frame refl in
        let same : arrival k u ≡ arrival k (log time w) = rw (fd_eq, got.trace) refl in
        rw got.slot (
          Returns-mono (accept_into-Settled k u (set cs i c) free i c got.valid at_i refl)
            λ q v done.
              subst (λ e. Settled k e cs free i (arrival k (log time w)) q v) epoll_eq
                (subst (λ x. Settled k u.mgr.epoll_fd cs free i x q v) same
                  (Settled-set u.mgr.epoll_fd cs free i c (arrival k u) q v done))))
