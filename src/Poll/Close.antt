-- ===== src/Poll/Close.antt =====
-- What `sc_mgr_poll` does to the slot of a connection.
use sculpt.Base.{
  false, ℕ, ◌≡◌, refl, true, some, List, ◌∷◌, get_elem?, set, get_elem?-set_self, lt_of_get_elem?,
  ◌==ℤ◌, minus_one, Bool-cases, ◌⊎◌, inl, inr, ap,
}
use sculpt.Machine.{
  Conn, World, Kernel, Trace, ok, log, time, close, epoll_ctl, delete, modify, ptr,
}
use sculpt.Machine.Returns.{Returns, returns, and_then-Returns, Returns-mono}
use sculpt.Pool.{is_active}
use sculpt.Pool.Valid.{Valid}
use sculpt.Pool.Slots.{load_conn-ok}
use sculpt.Pool.Preserve.{keep-Valid}
use sculpt.Pool.Take.{SameOutsidePool}
use sculpt.Pool.Release.{released, release_conn-Valid}
use sculpt.Poll.{touch, close_conn, keep_conn, hang_up}

-- The slot `i` heads the free list again, after the calls `t`, and nothing but the pool has changed.
pub record Closed (ds : List Conn) (free : List ℕ) (i : ℕ) (w : World) (t : Trace) (v : World)
    : Type 0 where
  pub slot : Conn
  pub valid : Valid v.mgr.pool (set ds i slot) (i ∷ free)
  pub is_off : is_active slot.state ≡ false
  pub trace : v.trace ≡ t
  pub frame : SameOutsidePool w v

module _ (k : Kernel) (w : World) (ds : List Conn) (free : List ℕ) (i : ℕ) (d : Conn)
    (valid : Valid w.mgr.pool ds free) (at_i : get_elem? ds i ≡ some d)
    (on : is_active d.state ≡ true) where
  -- The last lines for a connection that is not kept.
  pub close_conn-Closed :
      Returns
        (λ _ v.
          Closed ds free i w
            (epoll_ctl delete w.mgr.epoll_fd d.fd ∷ (time ∷ (close d.fd ∷ w.trace)))
            v)
        (close_conn k i w)
  unfolding close_conn
  close_conn-Closed = rw (load_conn-ok w ds i d valid.array at_i) (
      and_then-Returns (release_conn-Valid k (log (close d.fd) w) ds free i d valid at_i on)
        λ _ v (valid', trace, frame, _).
          let d' = released (k.clock (time ∷ (close d.fd ∷ w.trace))) w.mgr.pool.free_conns d in
          let efd : v.mgr.epoll_fd ≡ w.mgr.epoll_fd = rw frame refl in
          rw
            (load_conn-ok v (set ds i d') i d' valid'.array
              (get_elem?-set_self ds i d' (lt_of_get_elem? ds i at_i)))
            (returns (record {
              slot = d';
              valid = valid';
              is_off = refl;
              trace = rw (trace, efd) refl;
              frame =
                  ap {A = World}
                    (λ x. record x { trace = epoll_ctl delete v.mgr.epoll_fd d.fd ∷ v.trace })
                    frame;
            })))

  -- A connection whose peer has gone.
  pub hang_up-Closed :
      Returns
        (λ _ v.
          Closed ds free i w
            (time ∷ (close d.fd ∷ (epoll_ctl delete w.mgr.epoll_fd d.fd ∷ w.trace)))
            v)
        (hang_up k i w)
  unfolding hang_up
  hang_up-Closed = rw (load_conn-ok w ds i d valid.array at_i) (
      Returns-mono
        (release_conn-Valid k (log (close d.fd) (log (epoll_ctl delete w.mgr.epoll_fd d.fd) w)) ds
          free i d valid at_i on)
        λ _ v (valid', trace, frame, _). record {
          slot = _;
          valid = valid';
          is_off = refl;
          trace = trace;
          frame = frame;
        })

  -- Put back into epoll, or closed.
  abbrev pub Rearmed : World → Type 0
  Rearmed v =
      let asks = epoll_ctl (modify (ptr (some i))) w.mgr.epoll_fd d.fd in
      ((v ≡ log asks w) × ((k.result (asks ∷ w.trace) ==ℤ minus_one) ≡ false))
      ⊎ (Closed ds free i w
            (epoll_ctl delete w.mgr.epoll_fd d.fd ∷ (time ∷ (close d.fd ∷ (asks ∷ w.trace)))) v
          × ((k.result (asks ∷ w.trace) ==ℤ minus_one) ≡ true))

  abbrev pub touched : Conn
  touched = record d { last_active = k.clock (time ∷ w.trace) }

  -- The world with the time of the last use set.
  abbrev pub touched_world : World
  touched_world = record w {
    mgr = record (w.mgr) { pool = record (w.mgr.pool) { conns = some (set ds i touched) } };
    trace = time ∷ w.trace;
  }

  pub touch-ok : touch k i w ≡ ok tt touched_world
  unfolding touch
  touch-ok = rw (load_conn-ok (log time w) ds i d valid.array at_i) (rw (valid.array) refl)

  pub touched-Valid : Valid touched_world.mgr.pool (set ds i touched) free
  touched-Valid = keep-Valid w.mgr.pool ds i d touched at_i free valid on on

-- A connection that is kept: still active, unless epoll refuses it.
pub keep_conn-Rearmed :
    (k : Kernel) (w : World) (ds : List Conn) (free : List ℕ) (i : ℕ) (d : Conn)
    (valid : Valid w.mgr.pool ds free) (at_i : get_elem? ds i ≡ some d)
    (on : is_active d.state ≡ true)
    → Returns (λ _ v. Rearmed k w ds free i d valid at_i on v) (keep_conn k i w)
unfolding keep_conn
keep_conn-Rearmed k w ds free i d valid at_i on =
    let asks = epoll_ctl (modify (ptr (some i))) w.mgr.epoll_fd d.fd in
    rw (load_conn-ok w ds i d valid.array at_i)
      (elim (Bool-cases (k.result (asks ∷ w.trace) ==ℤ minus_one)) [
        | inr e ↦ rw e (returns (inl (refl, refl)))
        | inl e ↦ rw e (
            Returns-mono (close_conn-Closed k (log asks w) ds free i d valid at_i on) λ _ v c. inr (
              record {
                slot = c.slot;
                valid = c.valid;
                is_off = c.is_off;
                trace = c.trace;
                frame = c.frame;
              },
              refl,
            ))
      ])
