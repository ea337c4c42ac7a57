-- ===== src/Pool/Frame.antt =====
-- The functions of the pool change nothing else.
use sculpt.Base.{
  ◌∙◌, ap, sym, Bool-cases, inl, inr, ltb_ℤ, ℤ, ℕ, zero, suc, true, Option, none, some, get_elem?,
}
use sculpt.Machine.{Mgr, World, Kernel, log, time, shutdown, close, epoll_ctl, delete}
use sculpt.Machine.Frame.{
  Framed-log, Framed-put, Framed, Framed-refl, Ends, Ends-and_then, Ends-need,
}
use sculpt.Machine.Since.{Since}
use sculpt.Pool.Take.{SameOutsidePool}
use sculpt.Pool.{
  is_expired, expire, cleanup_loop, conns_cleanup, load_conn, get_free, take_free, release_conn,
}

pub load_conn-Ends : (w v : World) (i : ℕ) → Framed w v → Ends w (load_conn i v)
unfolding load_conn
load_conn-Ends w v i f =
    Ends-and_then w _ _ (Ends-need w v v.mgr.pool.conns f)
      λ cs u g. Ends-need w u (get_elem? cs i) g

pub release_conn-Ends :
    (k : Kernel) (w v : World) (p : Option ℕ) → Framed w v → Ends w (release_conn k p v)
unfolding release_conn
release_conn-Ends k w v none f = f
release_conn-Ends k w v (some i) f = Ends-and_then w _ _ (load_conn-Ends w v i f) λ c u g.
    Ends-and_then w _ _ (Ends-need w _ u.mgr.pool.conns (Framed-log w u time tt g))
      λ cs x h. Framed-put w x _ _ h

pub get_free-Ends : (k : Kernel) (w : World) → Ends w (get_free k true w)
unfolding get_free take_free
get_free-Ends k w = elim (Bool-cases (ltb_ℤ w.mgr.pool.conn_count w.mgr.pool.max_conn_count)) [
  | inr e ↦ rw e (Framed-refl w)
  | inl e ↦ rw e (
      Ends-and_then w _ _ (Ends-need w w w.mgr.pool.free_conns (Framed-refl w)) λ i v f.
        Ends-and_then w _ _ (load_conn-Ends w v i f) λ c u g.
          Ends-and_then w _ _ (Ends-need w u w.mgr.pool.conns g)
            λ cs x h. Framed-put w (log time x) _ _ (Framed-log w x time tt h))
]

expire-Ends : (k : Kernel) (now : ℤ) (w v : World) (i : ℕ) → Framed w v → Ends w (expire k now i v)
unfolding expire
expire-Ends k now w v i f = Ends-and_then w _ _ (load_conn-Ends w v i f) λ c u g.
    let a = Framed-log w u (shutdown c.fd) tt g in
    let b = Framed-log w _ (close c.fd) tt a in
    let d = Framed-log w _ (epoll_ctl delete u.mgr.epoll_fd c.fd) tt b in
    elim (Bool-cases (is_expired now u.mgr.pool c)) [
      | inl e ↦ rw e (release_conn-Ends k w _ (some i) d)
      | inr e ↦ rw e g
    ]

cleanup_loop-Ends :
    (k : Kernel) (now : ℤ) (w v : World) (n i : ℕ) → Framed w v → Ends w (cleanup_loop k now n i v)
unfolding cleanup_loop
cleanup_loop-Ends k now w v zero i f = f
cleanup_loop-Ends k now w v (suc n) i f =
    Ends-and_then w _ _ (expire-Ends k now w v i f) λ _ u g. cleanup_loop-Ends k now w u n (suc i) g

pub conns_cleanup-Ends : (k : Kernel) (w : World) → Ends w (conns_cleanup k w)
unfolding conns_cleanup
conns_cleanup-Ends k w =
    cleanup_loop-Ends k _ w (log time w) _ 0 (Framed-log w w time tt (Framed-refl w))

-- Code that changes the pool alone is framed.
pub Framed-of_pool : (w v : World) → SameOutsidePool w v → Since none w.trace v.trace → Framed w v
Framed-of_pool w v f t =
    let same = ap {B = Mgr} (λ x. x.mgr) f in
    record {
      mgr =
          same
          ∙ ap {B = Mgr} (λ a. record (w.mgr) { pool = v.mgr.pool; addr_info = a })
              (sym (ap (λ (m : Mgr). m.addr_info) same));
      live = ap (λ x. x.live) f;
      next_block = ap (λ x. x.next_block) f;
      since = t;
    }
