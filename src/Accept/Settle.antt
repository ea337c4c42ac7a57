-- ===== src/Accept/Settle.antt =====
-- The descriptor that `create_new_connection` has accepted, and the slot that it gets or loses.
use sculpt.Accept.Fates.{Admitted, Unfit, Rejected}
use sculpt.Base.{
  sym, ◌++◌, [], subst, ℕ, ◌≡◌, ◌≢◌, refl, true, some, List, ◌∷◌, ℤ, get_elem?, set, ◌⊎◌, inl, inr,
  get_elem?-set_self, lt_of_get_elem?, set-set, Bool-cases, eq_of_==ℤ, ne_of_==ℤ, minus_one, ◌==ℤ◌,
  arith,
}
use sculpt.Machine.{
  Conn, World, Kernel, Trace, ok, log, accept, close, time, epoll_ctl, add, ptr, fcntl_get,
  fcntl_set,
}
use sculpt.Machine.Returns.{Returns, returns, and_then-Returns, Returns-mono}
use sculpt.Code.{Code}
use sculpt.Pool.{is_active}
use sculpt.Pool.Valid.{Valid}
use sculpt.Pool.Slots.{load_conn-ok}
use sculpt.Pool.Preserve.{keep-Valid}
use sculpt.Pool.Release.{released, release_conn-Valid}
use sculpt.Machine.Occurs.{Ends-more}
use sculpt.Accept.{store_fd, drop_conn, accept_failed, register, accept_into}

module _ (k : Kernel) where
  store_fd-ok :
      (w : World) (cs : List Conn) (i : ℕ) (c : Conn) (fd : ℤ)
      → w.mgr.pool.conns ≡ some cs
      → get_elem? cs i ≡ some c
      → store_fd i fd w
        ≡ ok tt (record w {
          mgr = record (w.mgr) {
            pool = record (w.mgr.pool) { conns = some (set cs i (record c { fd = fd })) };
          };
        })
  unfolding store_fd
  store_fd-ok w cs i c fd array at_i = rw (load_conn-ok w cs i c array at_i) (rw array refl)

  Unfit-more :
      (efd : ℤ) (i : ℕ) (fd : ℤ) (more t : Trace)
      → Unfit k efd i fd [] t
      → Unfit k efd i fd more (more ++ t)
  Unfit-more efd i fd more t (inl e) = inl (Ends-more k more _ true t e)
  Unfit-more efd i fd more t (inr e) = inr (Ends-more k more _ true t e)

  drop_conn-Rejected :
      (efd : ℤ) (w : World) (cs : List Conn) (free : List ℕ) (i : ℕ) (c : Conn)
      → Valid w.mgr.pool cs free
      → get_elem? cs i ≡ some c
      → is_active c.state ≡ true
      → Unfit k efd i c.fd [] w.trace
      → Returns (Rejected k efd cs free i c.fd) (drop_conn k i w)
  unfolding drop_conn
  drop_conn-Rejected efd w cs free i c valid at_i on unfit =
      and_then-Returns (release_conn-Valid k w cs free i c valid at_i on)
        λ _ v (valid', trace, _, _).
          let d = released (k.clock (time ∷ w.trace)) w.mgr.pool.free_conns c in
          rw
            (load_conn-ok v (set cs i d) i d valid'.array
              (get_elem?-set_self cs i d (lt_of_get_elem? cs i at_i)))
            (returns (record {
              code = λ e. cc;
              slot = d;
              valid = valid';
              is_off = refl;
              disposed = inr (inl refl);
              cause = inr (
                  subst (λ t. Unfit k efd i c.fd (close c.fd ∷ (time ∷ [])) (close c.fd ∷ t))
                    (sym trace) (Unfit-more efd i c.fd (close c.fd ∷ (time ∷ [])) w.trace unfit));
            }))

  accept_failed-Rejected :
      (efd : ℤ) (w : World) (cs : List Conn) (free : List ℕ) (i : ℕ) (c : Conn)
      → Valid w.mgr.pool cs free
      → get_elem? cs i ≡ some c
      → is_active c.state ≡ true
      → c.fd ≡ minus_one
      → Returns (Rejected k efd cs free i c.fd) (accept_failed k i w)
  unfolding accept_failed
  accept_failed-Rejected efd w cs free i c valid at_i on no_fd =
      and_then-Returns (release_conn-Valid k w cs free i c valid at_i on)
        λ _ v (valid', trace, _, _). returns (record {
          code = ground arith;
          slot = released (k.clock (time ∷ w.trace)) w.mgr.pool.free_conns c;
          valid = valid';
          is_off = refl;
          disposed = inl no_fd;
          cause = inl no_fd;
        })

  abbrev pub Settled : ℤ → List Conn → List ℕ → ℕ → ℤ → Code → World → Type 0
  Settled efd cs free i fd r v = Admitted k efd cs free i fd r v ⊎ Rejected k efd cs free i fd r v

  pub Rejected-set :
      (efd : ℤ) (cs : List Conn) (free : List ℕ) (i : ℕ) (c : Conn) (fd : ℤ) (r : Code) (v : World)
      → Rejected k efd (set cs i c) free i fd r v
      → Rejected k efd cs free i fd r v
  Rejected-set efd cs free i c fd r v rej = record {
    code = rej.code;
    slot = rej.slot;
    valid = rw (← set-set cs i c rej.slot) rej.valid;
    is_off = rej.is_off;
    disposed = rej.disposed;
    cause = rej.cause;
  }

  drop_conn-Settled :
      (efd : ℤ) (u : World) (cs : List Conn) (free : List ℕ) (i : ℕ) (c : Conn) (fd : ℤ)
      → Valid u.mgr.pool (set cs i c) free
      → get_elem? (set cs i c) i ≡ some c
      → is_active c.state ≡ true
      → c.fd ≡ fd
      → Unfit k efd i fd [] u.trace
      → Returns (Settled efd cs free i fd) (drop_conn k i u)
  drop_conn-Settled efd u cs free i c fd valid at_i on same unfit =
      Returns-mono
        (drop_conn-Rejected efd u (set cs i c) free i c valid at_i on
          (subst (λ x. Unfit k efd i x [] u.trace) (sym same) unfit))
        λ r v rej. inr (
          Rejected-set efd cs free i c fd r v
            (subst (λ x. Rejected k efd (set cs i c) free i x r v) same rej))

  register-Settled :
      (w : World) (cs : List Conn) (free : List ℕ) (i : ℕ) (c : Conn) (fd : ℤ)
      → Valid w.mgr.pool (set cs i c) free
      → get_elem? (set cs i c) i ≡ some c
      → is_active c.state ≡ true
      → c.fd ≡ fd
      → fd ≢ minus_one
      → Returns (Settled w.mgr.epoll_fd cs free i fd) (register k i fd w)
  unfolding register
  register-Settled w cs free i c fd valid at_i on same opened =
      let u = log (fcntl_set fd) (log (fcntl_get fd) w) in
      let asks = epoll_ctl (add (ptr (some i))) w.mgr.epoll_fd fd in
      elim (Bool-cases (k.result u.trace ==ℤ minus_one)) [
        | inl e ↦ rw e (
            drop_conn-Settled w.mgr.epoll_fd u cs free i c fd valid at_i on same (inl (_, refl, e)))
        | inr e ↦ rw e (elim (Bool-cases (k.result (asks ∷ u.trace) ==ℤ minus_one)) [
          | inl f ↦ rw f (
              drop_conn-Settled w.mgr.epoll_fd (log asks u) cs free i c fd valid at_i on same
                (inr (u.trace, refl, f)))
          | inr f ↦ rw f (
              returns (
                inl (record {
                  code = refl;
                  slot = c;
                  valid = valid;
                  is_on = on;
                  slot_fd = same;
                  opened = opened;
                  registered = (u.trace, refl, f);
                })))
        ])
      ]

  -- The descriptor that `accept` returns.
  abbrev pub arrival : World → ℤ
  arrival w = k.result (accept w.mgr.fd ∷ w.trace)

  -- The world behind `accept`.
  abbrev accepted : World → World
  accepted w = record w {
    mgr = record (w.mgr) {
      addr_info = record (k.peer (accept w.mgr.fd ∷ w.trace) w.mgr.addr_info) {
        port = w.mgr.addr_info.port;
      };
    };
    trace = accept w.mgr.fd ∷ w.trace;
  }

  pub accept_into-Settled :
      (w : World) (cs : List Conn) (free : List ℕ) (i : ℕ) (c : Conn)
      → Valid w.mgr.pool cs free
      → get_elem? cs i ≡ some c
      → is_active c.state ≡ true
      → Returns (Settled w.mgr.epoll_fd cs free i (arrival w)) (accept_into k i w)
  unfolding accept_into
  accept_into-Settled w cs free i c valid at_i on =
      let valid' = keep-Valid w.mgr.pool cs i c c' at_i free valid on on in
      let at_i' = get_elem?-set_self cs i c' (lt_of_get_elem? cs i at_i) in
      rw (store_fd-ok heard cs i c fd valid.array at_i) (elim (Bool-cases (fd ==ℤ minus_one)) [
        | inl e ↦ rw e (failed e)
        | inr e ↦
            rw e
              (register-Settled u cs free i c' fd valid' at_i' on refl (ne_of_==ℤ fd minus_one e))
      ])
    where
      fd : ℤ
      fd = arrival w

      c' : Conn
      c' = record c { fd = fd }

      heard : World
      heard = accepted w

      u : World
      u = record heard {
        mgr = record (heard.mgr) { pool = record (w.mgr.pool) { conns = some (set cs i c') } };
      }

      failed :
          (fd ==ℤ minus_one) ≡ true
          → Returns (Settled w.mgr.epoll_fd cs free i fd) (accept_failed k i u)
      failed e =
          Returns-mono
            (accept_failed-Rejected w.mgr.epoll_fd u (set cs i c') free i c'
              (keep-Valid w.mgr.pool cs i c c' at_i free valid on on)
              (get_elem?-set_self cs i c' (lt_of_get_elem? cs i at_i)) on
              (eq_of_==ℤ fd minus_one e))
            λ r v rej. inr (Rejected-set w.mgr.epoll_fd cs free i c' fd r v rej)
