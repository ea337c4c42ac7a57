-- ===== src/Poll/Ending.antt =====
-- What becomes of a connection whose request has been answered.
use sculpt.Base.{
  [], set-set, ℤ, subst, ℕ, ◌≡◌, refl, Bool, true, false, none, some, List, ◌∷◌, sym, get_elem?,
  set, ◌⊎◌, inl, inr, if◌then◌else◌,
}
use sculpt.Machine.{Call, delete, time, Conn, Kernel, World, Trace, close, epoll_ctl, modify, ptr}
use sculpt.Machine.Since.{Since, now, later}
use sculpt.Machine.Returns.{Returns, Returns-mono}
use sculpt.Pool.{is_active}
use sculpt.Pool.Valid.{Valid}
use sculpt.Machine.Occurs.{Occurs, Ends}
use sculpt.Pool.Take.{SameOutsidePool}
use sculpt.Poll.{keep_conn, close_conn}
use sculpt.Poll.Close.{Closed, close_conn-Closed, keep_conn-Rearmed}

module _ (k : Kernel) (efd : ℤ) (cs : List Conn) (free : List ℕ) (i : ℕ) (fd : ℤ) where
  -- The connection was closed, and its slot heads the free list.
  pub record Gone (v : World) : Type 0 where
    pub slot : Conn
    pub valid : Valid v.mgr.pool (set cs i slot) (i ∷ free)
    pub is_off : is_active slot.state ≡ false
    pub closed : Occurs (close fd) v.trace

  -- The call that puts it back into epoll.
  abbrev pub rearm : Call
  rearm = epoll_ctl (modify (ptr (some i))) efd fd

  -- The connection waits for its next request: epoll has taken it.
  pub record Waits (v : World) : Type 0 where
    pub slot : Conn
    pub valid : Valid v.mgr.pool (set cs i slot) free
    pub is_on : is_active slot.state ≡ true
    pub same_fd : slot.fd ≡ fd
    pub rearmed : Ends k [] rearm false v.trace

  -- Its last calls, the latest first.
  abbrev pub closing : Trace
  closing = epoll_ctl delete efd fd ∷ (time ∷ (close fd ∷ []))

  -- What becomes of it: one that is to be kept waits, or epoll has refused it and it is closed.
  abbrev pub Ending : Bool → World → Type 0
  Ending true v = Waits v ⊎ (Gone v × Ends k closing rearm true v.trace)
  Ending false v = Gone v

  -- In each case the pool is valid, and at most the slot of the connection was written to.
  pub Ending-Valid :
      (keep : Bool) (v : World)
      → Ending keep v
      → (slot : Conn) × ((free' : List ℕ) × Valid v.mgr.pool (set cs i slot) free')
  Ending-Valid true v (inl x) = (x.slot, (free, x.valid))
  Ending-Valid true v (inr (x, _)) = (x.slot, (i ∷ free, x.valid))
  Ending-Valid false v x = (x.slot, (i ∷ free, x.valid))

module _ (k : Kernel) (u : World) (cs : List Conn) (free : List ℕ) (i : ℕ) (d : Conn) where
  -- What was closed, was closed at the end of the history.
  Closed-Gone :
      (t : Trace) (v : World)
      → Occurs (close d.fd) t
      → Closed (set cs i d) free i u t v
      → Gone k u.mgr.epoll_fd cs free i d.fd v
  Closed-Gone t v o x = record {
    slot = x.slot;
    valid = subst (λ es. Valid v.mgr.pool es (i ∷ free)) (set-set cs i d x.slot) x.valid;
    is_off = x.is_off;
    closed = subst (Occurs (close d.fd)) (sym x.trace) o;
  }

  -- The last lines of `sc_mgr_poll` for a connection, from its slot's content `d`.
  pub end-Ending :
      (keep : Bool)
      → Valid u.mgr.pool (set cs i d) free
      → get_elem? (set cs i d) i ≡ some d
      → is_active d.state ≡ true
      → Returns
          (λ _ v.
            Ending k u.mgr.epoll_fd cs free i d.fd keep v
            × SameOutsidePool u v
            × Since none u.trace v.trace)
          ((if keep then keep_conn k i else close_conn k i) u)
  end-Ending false valid at_i on =
      Returns-mono (close_conn-Closed k u (set cs i d) free i d valid at_i on) λ _ v x. (
        Closed-Gone _ v (inr (inr (inl refl))) x,
        x.frame,
        subst (Since none u.trace) (sym x.trace) (later tt (later tt (later tt now))),
      )
  end-Ending true valid at_i on =
      Returns-mono (keep_conn-Rearmed k u (set cs i d) free i d valid at_i on) λ _ v. elim [
        | inl (e, taken) ↦ rw e (
          inl (record {
            slot = d;
            valid = valid;
            is_on = on;
            same_fd = refl;
            rearmed = (u.trace, refl, taken);
          }),
          refl,
          later tt now,
        )
        | inr (x, refused) ↦ (
          inr (Closed-Gone _ v (inr (inr (inl refl))) x, (u.trace, x.trace, refused)),
          x.frame,
          subst (Since none u.trace) (sym x.trace) (later tt (later tt (later tt (later tt now)))),
        )
      ]
