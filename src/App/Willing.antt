-- ===== src/App/Willing.antt =====
-- A start of `main` in which no call fails.
use sculpt.Base.{
  ℕ, ◌≡◌, refl, true, false, none, some, [], ◌∷◌, ◌∙◌, ℤ, pos, minus_one, ◌==ℤ◌, codes, arith, ap,
}
use sculpt.Machine.{
  Kernel, World, Trace, Run, AddrInfo, EpollData, ok, socket, setsockopt, bind, listen, getnameinfo,
  epoll_create, fcntl_get, fcntl_set, epoll_ctl, add,
}
use sculpt.Machine.Heap.{alloc}
use sculpt.Machine.Returns.{Returns, returns, Returns-ok}
use sculpt.Headers.Append.{Generous}
use sculpt.Code.{ok_code}
use sculpt.Pool.{pool_init}
use sculpt.Endpoints.Bind.{bind_hard-Added}
use sculpt.Manager.{addr_create, mgr_create, epoll_init, mgr_listen, is_negative}
use sculpt.App.Equip.{Started}

-- Memory is granted, and of the calls that `main` makes before its loop none fails.
pub record Willing (k : Kernel) : Type 0 where
  pub generous : Generous k
  pub socket_ok : (t : Trace) → is_negative (k.result (socket ∷ t)) ≡ false
  pub setsockopt_ok : (s : ℤ) (t : Trace) → is_negative (k.result (setsockopt s ∷ t)) ≡ false
  pub bind_ok : (s : ℤ) (a : AddrInfo) (t : Trace) → k.result (bind s a ∷ t) ≡ pos 0
  pub epoll_create_ok : (t : Trace) → is_negative (k.result (epoll_create ∷ t)) ≡ false
  pub fcntl_get_ok : (s : ℤ) (t : Trace) → is_negative (k.result (fcntl_get s ∷ t)) ≡ false
  pub fcntl_set_ok : (s : ℤ) (t : Trace) → is_negative (k.result (fcntl_set s ∷ t)) ≡ false
  pub epoll_ctl_ok :
      (d : EpollData) (e s : ℤ) (t : Trace)
      → is_negative (k.result (epoll_ctl (add d) e s ∷ t)) ≡ false
  pub listen_ok : (s n : ℤ) (t : Trace) → is_negative (k.result (listen s n ∷ t)) ≡ false
  pub getnameinfo_ok : (a : AddrInfo) (t : Trace) → k.result (getnameinfo a ∷ t) ≡ pos 0

not_minus_one : (n : ℤ) → is_negative n ≡ false → (n ==ℤ minus_one) ≡ false
not_minus_one n h = ground (arith, h)

module _ (k : Kernel) (y : Willing k) (w : World) where
  create_succeeds :
      (a : AddrInfo) → Returns (λ r v. r ≡ (ok_code, some w.next_block)) (mgr_create k a w)
  unfolding mgr_create alloc
  create_succeeds a = rw (y.generous, y.socket_ok, y.setsockopt_ok, y.bind_ok) (returns refl)

  watch_succeeds : Returns (λ r v. r ≡ ok_code) (epoll_init k true w)
  unfolding epoll_init alloc
  watch_succeeds =
      rw
        (
          not_minus_one _ (y.epoll_create_ok _),
          not_minus_one _ (y.fcntl_get_ok _ _),
          not_minus_one _ (y.fcntl_set_ok _ _),
          not_minus_one _ (y.epoll_ctl_ok _ _ _ _),
          y.generous,
        )
        (returns refl)

  pool_succeeds : Returns (λ r v. r ≡ ok_code) (pool_init k true (pos 20) w)
  unfolding pool_init alloc
  pool_succeeds = rw y.generous (returns refl)

  listen_succeeds : Returns (λ r v. r ≡ ok_code) (mgr_listen k w)
  unfolding mgr_listen
  listen_succeeds = rw (y.listen_ok, y.getnameinfo_ok) (returns refl)

ok_at : {A : Type 0} (x : A) (r : Run A) → Returns (λ a v. a ≡ x) r → (v : World) × (r ≡ ok x v)
ok_at x r h = let (a, v, e, same) = Returns-ok h in (v, e ∙ ap (λ b. ok b v) same)

-- `main` comes to its loop.
pub Willing-Started :
    (k : Kernel) (root : ℕ) (w : World) → Willing k → (v : World) × Started k root w v
Willing-Started k root w y =
    let (made, create) = ok_at _ _ (create_succeeds k y w (addr_create (pos 2) (pos 8000))) in
    let (watching, watch) = ok_at _ _ (watch_succeeds k y made) in
    let (pooled, open_pool) = ok_at _ _ (pool_succeeds k y watching) in
    let (listening, listens) = ok_at _ _ (listen_succeeds k y pooled) in
    let (bound, v, binds, _) =
      Returns-ok
        (bind_hard-Added k listening none (codes "/root") [] root (omega arith) (omega arith)) in
    (
      v,
      record {
        made = made;
        watching = watching;
        pooled = pooled;
        listening = listening;
        block = w.next_block;
        bound = bound;
        create = create;
        watch = watch;
        open_pool = open_pool;
        listens = listens;
        bind = binds;
      },
    )
