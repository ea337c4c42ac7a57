-- ===== src/Accept/Recover.antt =====
-- `return_500` and `cleanup_after_error`.
use sculpt.Base.{
  ℕ, ◌≡◌, refl, true, some, List, ◌∷◌, set, get_elem?, get_elem?-set_self, lt_of_get_elem?, ◌-ℤ◌,
  pos, ◌∙◌, ap,
}
use sculpt.Machine.{Conn, World, Kernel, close, send, time, epoll_ctl, delete, log}
use sculpt.Machine.Returns.{Returns, returns, and_then-Returns}
use sculpt.Pool.{is_active}
use sculpt.Pool.Valid.{Valid}
use sculpt.Pool.Slots.{load_conn-ok}
use sculpt.Pool.Release.{
  released, Released, release_conn-Released, release_conn-Valid, Corrupt-Released, Corrupt,
}
use sculpt.Accept.{response_500, return_500, cleanup_after_error}

module _ (k : Kernel) where
  -- The world in which `return_500` calls `sc_mgr_conn_release`.
  abbrev answered : World → Conn → World
  answered w c = log (close c.fd) (log (send c.fd response_500) w)

  -- What `return_500` leaves, whatever the state of the slot.
  record Answered (w : World) (cs : List Conn) (i : ℕ) (c : Conn) (v : World) : Type 0 where
    middle : World
    released_once : Released k (answered w c) cs i c middle
    after : v ≡ log (epoll_ctl delete middle.mgr.epoll_fd c.fd) middle

  return_500-Answered :
      (w : World) (cs : List Conn) (i : ℕ) (c : Conn)
      → w.mgr.pool.conns ≡ some cs
      → get_elem? cs i ≡ some c
      → Returns (λ _ v. Answered w cs i c v) (return_500 k i w)
  unfolding return_500
  return_500-Answered w cs i c array at_i = rw (load_conn-ok w cs i c array at_i) (
      and_then-Returns (release_conn-Released k (answered w c) cs i c array at_i)
        λ _ u done. returns (record { middle = u; released_once = done; after = refl }))

  -- The slot heads a valid pool's free list, and the calls were these.
  abbrev pub GivenUp : World → List Conn → List ℕ → ℕ → Conn → World → Type 0
  GivenUp w cs free i c v =
      ((d : Conn) × Valid v.mgr.pool (set cs i d) (i ∷ free))
      × (v.trace
          ≡ epoll_ctl delete w.mgr.epoll_fd c.fd
            ∷ time
            ∷ close c.fd
            ∷ send c.fd response_500
            ∷ w.trace)

  -- On an active connection of a valid pool `return_500` sends the 500 response, closes the
  -- descriptor, gives the slot back and takes the descriptor off epoll, and the pool is valid.
  pub return_500-Valid :
      (w : World) (cs : List Conn) (free : List ℕ) (i : ℕ) (c : Conn)
      → Valid w.mgr.pool cs free
      → get_elem? cs i ≡ some c
      → is_active c.state ≡ true
      → Returns (λ _ v. GivenUp w cs free i c v) (return_500 k i w)
  unfolding return_500
  return_500-Valid w cs free i c valid at_i on = rw (load_conn-ok w cs i c valid.array at_i) (
      and_then-Returns (release_conn-Valid k (answered w c) cs free i c valid at_i on)
        λ _ u (valid', trace, frame, _).
          let efd : u.mgr.epoll_fd ≡ w.mgr.epoll_fd = rw frame refl in
          returns ((_, valid'), rw (trace, efd) refl))

  abbrev pub Ruined : World → ℕ → World → Type 0
  Ruined w i v =
      Corrupt k i v
      × (v.mgr.pool.conn_count ≡ w.mgr.pool.conn_count -ℤ pos 1 -ℤ pos 1)
      × (v.mgr.pool.max_conn_count ≡ w.mgr.pool.max_conn_count)

  -- `cleanup_after_error` releases the connection that `return_500` has released already: on any
  -- active connection of a valid pool it leaves the slot pointing at itself, a pool that no free
  -- list fits, and a count that is two less.
  pub cleanup_after_error-Corrupt :
      (w : World) (cs : List Conn) (free : List ℕ) (i : ℕ) (c : Conn)
      → Valid w.mgr.pool cs free
      → get_elem? cs i ≡ some c
      → is_active c.state ≡ true
      → Returns (λ _ v. Ruined w i v) (cleanup_after_error k (some i) w)
  unfolding cleanup_after_error
  cleanup_after_error-Corrupt w cs free i c valid at_i on =
      and_then-Returns (return_500-Answered w cs i c valid.array at_i) λ _ u once.
        let c' = released (k.clock (time ∷ (answered w c).trace)) w.mgr.pool.free_conns c in
        let cs' = set cs i c' in
        let at_i' = get_elem?-set_self cs i c' (lt_of_get_elem? cs i at_i) in
        let same : u.mgr.pool ≡ once.middle.mgr.pool = rw once.after refl in
        let pool = same ∙ once.released_once.pool in
        let head : u.mgr.pool.free_conns ≡ some i = ap (λ p. p.free_conns) pool in
        and_then-Returns (release_conn-Released k u cs' i c' (ap (λ p. p.conns) pool) at_i')
          λ _ v twice.
            let d = released (k.clock (time ∷ u.trace)) u.mgr.pool.free_conns c' in
            let at_d = get_elem?-set_self cs' i d (lt_of_get_elem? cs' i at_i') in
            rw (load_conn-ok v (set cs' i d) i d (ap (λ p. p.conns) twice.pool) at_d) (
              returns (
                Corrupt-Released k u v cs' i c' at_i' head twice,
                ap (λ p. p.conn_count) twice.pool ∙ ap (λ p. p.conn_count -ℤ pos 1) pool,
                ap (λ p. p.max_conn_count) twice.pool ∙ ap (λ p. p.max_conn_count) pool,
              ))
