-- ===== src/Pool/Expire.antt =====
-- One round of `sc_mgr_conns_cleanup`: a connection past its limits is closed.
use sculpt.Base.{
  clash, zero, suc, arith, ap, ◌++◌, ℕ, ◌≡◌, refl, true, false, some, List, [], ◌∷◌, ℤ, get_elem?,
  set, inl, inr, Bool-cases, sym, ◌∙◌,
}
use sculpt.Machine.{
  Conn, World, Kernel, Pool, Trace, time, close, shutdown, epoll_ctl, delete, closing, log,
}
use sculpt.Machine.Returns.{Returns, returns, Returns-mono}
use sculpt.Pool.{is_active, is_expired, expire, release_conn}
use sculpt.Machine.Occurs.{Occurs}
use sculpt.Pool.Slots.{load_conn-ok}
use sculpt.Pool.Valid.{SameLimits, Valid}
use sculpt.Pool.Release.{released, release_conn-Valid}

-- What the sweep at time `now` makes of the connection `c`: with the limits of `p`, one past its
-- limits is closing with its descriptor kept, and any other slot is as it was.
pub record Swept (now : ℤ) (p : Pool) (c d : Conn) : Type 0 where
  pub gone : is_expired now p c ≡ true → (d.state ≡ closing) × (d.fd ≡ c.fd)
  pub kept : is_expired now p c ≡ false → d ≡ c

-- The descriptor of a connection past its limits was shut down, closed, and taken off epoll.
pub record Closed (now : ℤ) (p : Pool) (epoll_fd : ℤ) (c : Conn) (t : Trace) : Type 0 where
  pub shut : is_expired now p c ≡ true → Occurs (shutdown c.fd) t
  pub closes : is_expired now p c ≡ true → Occurs (close c.fd) t
  pub removed : is_expired now p c ≡ true → Occurs (epoll_ctl delete epoll_fd c.fd) t

is_expired-SameLimits :
    (now : ℤ) (p q : Pool) (c : Conn) → SameLimits p q → is_expired now q c ≡ is_expired now p c
unfolding is_expired
is_expired-SameLimits now p q c (e, f) = rw (e, f)

active_of_expired :
    (now : ℤ) (p : Pool) (c : Conn) → is_expired now p c ≡ true → is_active c.state ≡ true
unfolding is_expired
active_of_expired now p c h = ground arith

set-get_elem? : (cs : List Conn) (i : ℕ) (c : Conn) → get_elem? cs i ≡ some c → set cs i c ≡ cs
set-get_elem? [] i c h = refl
set-get_elem? (x ∷ cs) zero c h = ground arith
set-get_elem? (x ∷ cs) (suc i) c h = ap (◌∷◌ x) (set-get_elem? cs i c h)

module _ (k : Kernel) (now : ℤ) (lim : Pool) (epoll_fd : ℤ) where
  -- One round, at slot `i`.
  pub record Stepped (w : World) (cs : List Conn) (i : ℕ) (c : Conn) (v : World) : Type 0 where
    pub slot : Conn
    pub free : List ℕ
    pub valid : Valid v.mgr.pool (set cs i slot) free
    pub swept : Swept now lim c slot
    pub closed : Closed now lim epoll_fd c v.trace
    pub limits : SameLimits lim v.mgr.pool
    pub epoll : v.mgr.epoll_fd ≡ epoll_fd
    pub more : Trace
    pub trace : v.trace ≡ more ++ w.trace

  pub expire-Stepped :
      (w : World) (cs : List Conn) (free : List ℕ) (i : ℕ) (c : Conn)
      → Valid w.mgr.pool cs free
      → SameLimits lim w.mgr.pool
      → w.mgr.epoll_fd ≡ epoll_fd
      → get_elem? cs i ≡ some c
      → Returns (λ _ v. Stepped w cs i c v) (expire k now i w)
  unfolding expire
  expire-Stepped w cs free i c valid same efd at_i =
      rw (load_conn-ok w cs i c valid.array at_i) (elim (Bool-cases (is_expired now w.mgr.pool c)) [
        | inl e ↦ rw e (expired e)
        | inr e ↦ rw e (
            returns (record {
              slot = c;
              free = free;
              valid = rw (set-get_elem? cs i c at_i) valid;
              swept = record { gone = λ h. clash h (unexpired e); kept = λ _. refl };
              closed = record {
                shut = λ h. clash h (unexpired e);
                closes = λ h. clash h (unexpired e);
                removed = λ h. clash h (unexpired e);
              };
              limits = same;
              epoll = efd;
              more = [];
              trace = refl;
            }))
      ])
    where
      unexpired : is_expired now w.mgr.pool c ≡ false → is_expired now lim c ≡ false
      unexpired e = sym (is_expired-SameLimits now lim w.mgr.pool c same) ∙ e

      u : World
      u = log (epoll_ctl delete w.mgr.epoll_fd c.fd) (log (close c.fd) (log (shutdown c.fd) w))

      expired :
          is_expired now w.mgr.pool c ≡ true
          → Returns (λ _ v. Stepped w cs i c v) (release_conn k (some i) u)
      expired e =
          Returns-mono
            (release_conn-Valid k u cs free i c valid at_i (active_of_expired now w.mgr.pool c e))
            λ _ v (valid', trace, frame, limits). record {
              slot = released (k.clock (time ∷ u.trace)) u.mgr.pool.free_conns c;
              free = i ∷ free;
              valid = valid';
              swept = record {
                gone = λ _. (refl, refl);
                kept = λ h. clash e (is_expired-SameLimits now lim w.mgr.pool c same ∙ h);
              };
              closed = record {
                shut = λ _. rw trace (inr (inr (inr (inl refl))));
                closes = λ _. rw trace (inr (inr (inl refl)));
                removed = λ _. rw (trace, efd) (inr (inl refl));
              };
              limits = (limits.0 ∙ same.0, limits.1 ∙ same.1);
              epoll = rw frame efd;
              more = time ∷ epoll_ctl delete w.mgr.epoll_fd c.fd ∷ close c.fd ∷ shutdown c.fd ∷ [];
              trace = trace;
            }
