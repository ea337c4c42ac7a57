-- ===== src/Accept/Frame.antt =====
-- What `create_new_connection` does not change.
use sculpt.Base.{Bool-cases, inl, inr, ℕ, Option, none, some, ◌∷◌, ltb_ℤ, ◌==ℤ◌, minus_one, ℤ}
use sculpt.Machine.{
  World, Kernel, log, accept, close, send, fcntl_get, fcntl_set, epoll_ctl, add, ptr,
}
use sculpt.Machine.Frame.{
  Framed-log, Framed-put, Framed, Framed-refl, Ends, Ends-and_then, Ends-need,
}
use sculpt.Pool.Frame.{load_conn-Ends, get_free-Ends, release_conn-Ends}
use sculpt.Accept.{
  response_503, create_new_connection, store_fd, accept_failed, register, accept_into, accept_slot,
  refuse, drop_conn,
}

module _ (k : Kernel) (w : World) where
  store_fd-Ends : (v : World) (i : ℕ) (fd : ℤ) → Framed w v → Ends w (store_fd i fd v)
  unfolding store_fd
  store_fd-Ends v i fd f =
      Ends-and_then w _ _ (load_conn-Ends w v i f) λ c u g.
        Ends-and_then w _ _ (Ends-need w u u.mgr.pool.conns g) λ cs x h. Framed-put w x _ _ h

  drop_conn-Ends : (v : World) (i : ℕ) → Framed w v → Ends w (drop_conn k i v)
  unfolding drop_conn
  drop_conn-Ends v i f = Ends-and_then w _ _ (release_conn-Ends k w v (some i) f) λ _ u g.
      Ends-and_then w _ _ (load_conn-Ends w u i g) λ c x h. Framed-log w x (close c.fd) tt h

  register-Ends : (v : World) (i : ℕ) (fd : ℤ) → Framed w v → Ends w (register k i fd v)
  unfolding register
  register-Ends v i fd f =
      let u = log (fcntl_set fd) (log (fcntl_get fd) v) in
      let g =
        Framed-log w (log (fcntl_get fd) v) (fcntl_set fd) tt
          (Framed-log w v (fcntl_get fd) tt f) in
      let asks = epoll_ctl (add (ptr (some i))) v.mgr.epoll_fd fd in
      let h = Framed-log w u asks tt g in
      elim (Bool-cases (k.result u.trace ==ℤ minus_one)) [
        | inl e ↦ rw e (drop_conn-Ends u i g)
        | inr e ↦ rw e (elim (Bool-cases (k.result (asks ∷ u.trace) ==ℤ minus_one)) [
          | inl e ↦ rw e (drop_conn-Ends (log asks u) i h)
          | inr e ↦ rw e h
        ])
      ]

  accept_into-Ends : (v : World) (i : ℕ) → Framed w v → Ends w (accept_into k i v)
  unfolding accept_into accept_failed
  accept_into-Ends v i f =
      Ends-and_then w _ _
        (store_fd-Ends _ i _ (Framed-put w _ _ _ (Framed-log w v (accept v.mgr.fd) tt f)))
        λ _ u g. elim (Bool-cases (k.result (accept v.mgr.fd ∷ v.trace) ==ℤ minus_one)) [
          | inl e ↦ rw e (Ends-and_then w _ _ (release_conn-Ends k w u (some i) g) λ _ x h. h)
          | inr e ↦ rw e (register-Ends u i _ g)
        ]

  accept_slot-Ends : (v : World) (p : Option ℕ) → Framed w v → Ends w (accept_slot k p v)
  unfolding accept_slot
  accept_slot-Ends v none f = f
  accept_slot-Ends v (some i) f = accept_into-Ends v i f

  refuse-Ends : Ends w (refuse k w)
  unfolding refuse
  refuse-Ends =
      let heard =
        Framed-put w (log (accept w.mgr.fd) w) _ _
          (Framed-log w w (accept w.mgr.fd) tt (Framed-refl w)) in
      elim (Bool-cases (k.result (accept w.mgr.fd ∷ w.trace) ==ℤ minus_one)) [
        | inl e ↦ rw e heard
        | inr e ↦ rw e (Framed-log w _ (close _) tt (Framed-log w _ (send _ response_503) tt heard))
      ]

  pub create_new_connection-Ends : Ends w (create_new_connection k w)
  unfolding create_new_connection
  create_new_connection-Ends =
      elim (Bool-cases (ltb_ℤ w.mgr.pool.conn_count w.mgr.pool.max_conn_count)) [
        | inl e ↦ rw e (Ends-and_then w _ _ (get_free-Ends k w) λ p v f. accept_slot-Ends v p f)
        | inr e ↦ rw e refuse-Ends
      ]
