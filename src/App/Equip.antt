-- ===== src/App/Equip.antt =====
-- The start of `main`, up to its endpoint: the manager that it makes and the blocks that it takes.
use sculpt.Endpoints.Lookup.{IsRoute}
use sculpt.Base.{
  All, ℕ, ◌+◌, ◌≡◌, refl, true, none, some, List, [], ◌∷◌, pos, codes, has, if◌then◌else◌, ◌⊎◌, inl,
  inr, arith, ap, subst, ◌∙◌, sym, ℤ,
}
use sculpt.Machine.{Mgr, Conn, Kernel, World, ok, at}
use sculpt.Machine.Holding.{Fresh}
use sculpt.Machine.Returns.{Returns-at}
use sculpt.Code.{Code, ok_code}
use sculpt.Pool.{pool_init, link_slots}
use sculpt.Pool.Valid.{Valid}
use sculpt.Pool.Init.{range, Ready, PoolReady, pool_init-Ready}
use sculpt.Endpoints.{bind_hard}
use sculpt.Endpoints.Bind.{bind_hard-Added}
use sculpt.Manager.{addr_create, mgr_create, epoll_init, mgr_listen}
use sculpt.Manager.Create.{Made, NotMade, mgr_create-Made, mgr_listen_frame, socket_of}
use sculpt.Manager.Watch.{Watching, Unwatched, epoll_init-Watched}
use sculpt.Manager.Finish.{blocks_of}
use sculpt.App.{literal}

-- The start of `main` went well, up to the endpoint, and ended in the world `v`.
pub record Started (k : Kernel) (root : ℕ) (w v : World) : Type 0 where
  pub made : World
  pub watching : World
  pub pooled : World
  pub listening : World
  pub block : ℕ
  pub bound : Code
  pub create : mgr_create k (addr_create (pos 2) (pos 8000)) w ≡ ok (ok_code, some block) made
  pub watch : epoll_init k true made ≡ ok ok_code watching
  pub open_pool : pool_init k true (pos 20) watching ≡ ok ok_code pooled
  pub listens : mgr_listen k pooled ≡ ok ok_code listening
  pub bind : bind_hard k (at none (literal (codes "/root"))) root listening ≡ ok bound v

-- The blocks of the pool, of the events and of the manager, which were taken in turn from `n` on, and those of the endpoints.
abbrev pub taken : ℕ → List ℕ → List ℕ
taken n endpoints = (n + 2) ∷ ((n + 1) ∷ (n ∷ endpoints))

-- Since `w` a manager with a socket was made in the first new block: its pool is valid, and its pool, its events and its endpoints are in
-- new blocks.
pub record Equipped (s : ℤ) (w : World) (endpoints : List ℕ) (v : World) : Type 0 where
  pub slots : List Conn
  pub free : List ℕ
  pub valid : Valid v.mgr.pool slots free
  pub has_pool : v.mgr.pool_block ≡ some (w.next_block + 2)
  pub has_events : v.mgr.events ≡ some (w.next_block + 1)
  pub has_endpoints : blocks_of v.mgr.endpoints ≡ endpoints
  pub has_socket : v.mgr.fd ≡ s
  pub live : (a : ℕ) → v.live a ≡ (if has a (taken w.next_block endpoints) then true else w.live a)

Made-of_ok :
    {k : Kernel} {w v : World} {b : ℕ}
    → Made k w (addr_create (pos 2) (pos 8000)) (ok_code, some b) v
      ⊎ NotMade k w (ok_code, some b) v
    → Made k w (addr_create (pos 2) (pos 8000)) (ok_code, some b) v
Made-of_ok (inl made) = made
Made-of_ok (inr failed) = absurd (failed.code refl)

Watching-of_ok :
    {k : Kernel} {w v : World}
    → Watching k w ok_code v ⊎ Unwatched k w ok_code v
    → Watching k w ok_code v
Watching-of_ok (inl watching) = watching
Watching-of_ok (inr failed) = absurd (failed.code refl)

PoolReady-of_ok : (w v : World) → Ready 19 w ok_code v → PoolReady 19 w ok_code v
PoolReady-of_ok w v (inl ready) = ready
PoolReady-of_ok w v (inr failed) = cc

module _ (k : Kernel) (root : ℕ) (w v : World) (s : Started k root w v) (fresh : Fresh w) where
  pub made_manager : Made k w (addr_create (pos 2) (pos 8000)) (ok_code, some s.block) s.made
  made_manager = Made-of_ok (
      Returns-at
        (mgr_create-Made k w (addr_create (pos 2) (pos 8000)) (fresh w.next_block (omega arith)))
        s.create)

  -- Until the manager listens.
  listening-Equipped :
      Equipped (socket_of k w) w [] s.listening
      × (s.listening.next_block ≡ w.next_block + 3)
      × (s.listening.mgr.endpoints ≡ [])
  listening-Equipped =
      let (same1, out) = Returns-at (epoll_init-Watched k s.made) s.watch in
      let watching = Watching-of_ok out in
      let (_, valid, at_block, _, _, same2, live2, next2) =
        PoolReady-of_ok s.watching s.pooled
          (Returns-at (pool_init-Ready k s.watching 19) s.open_pool) in
      let (same3, live3, next3) = Returns-at (mgr_listen_frame k s.pooled) s.listens in
      let none_bound : s.listening.mgr.endpoints ≡ [] =
        ap (λ (m : Mgr). m.endpoints) same3
        ∙ ap (λ (m : Mgr). m.endpoints) same2
        ∙ ap (λ (m : Mgr). m.endpoints) same1
        ∙ made_manager.no_endpoints in
      (
        record {
          slots = link_slots 0 20;
          free = range 0 20;
          valid =
              subst (λ p. Valid p (link_slots 0 20) (range 0 20))
                (ap (λ (m : Mgr). m.pool) (sym same3)) valid;
          has_pool =
              ap (λ (m : Mgr). m.pool_block) same3
              ∙ at_block
              ∙ ap some (omega (arith, watching.next_block, made_manager.next_block));
          has_events =
              ap (λ (m : Mgr). m.events) same3
              ∙ ap (λ (m : Mgr). m.events) same2
              ∙ watching.events
              ∙ ap some (made_manager.next_block);
          has_endpoints = ap blocks_of none_bound;
          has_socket =
              ap (λ (m : Mgr). m.fd) same3
              ∙ ap (λ (m : Mgr). m.fd) same2
              ∙ ap (λ (m : Mgr). m.fd) same1
              ∙ made_manager.open_fd;
          live = λ a.
              ap (λ f. f a) live3
              ∙ ground (
                arith,
                live2 a,
                watching.live a,
                made_manager.live a,
                watching.next_block,
                made_manager.next_block,
              );
        },
        omega (arith, next3, next2, watching.next_block, made_manager.next_block),
        none_bound,
      )

  -- With the endpoint.
  pub started-Equipped :
      (es : List ℕ) × ((es ≡ []) ⊎ (es ≡ (w.next_block + 3) ∷ [])) × Equipped (socket_of k w) w es v
  started-Equipped =
      let (heard, next, none_bound) = listening-Equipped in
      let (same, added) =
        Returns-at
          (bind_hard-Added k s.listening none (codes "/root") [] root (omega arith) (omega arith))
          s.bind in
      let pool : v.mgr.pool ≡ s.listening.mgr.pool = ap (λ (m : Mgr). m.pool) same in
      let valid : Valid v.mgr.pool heard.slots heard.free =
        subst (λ p. Valid p heard.slots heard.free) (sym pool) heard.valid in
      let has_pool : v.mgr.pool_block ≡ some (w.next_block + 2) =
        ap (λ (m : Mgr). m.pool_block) same ∙ heard.has_pool in
      let has_events : v.mgr.events ≡ some (w.next_block + 1) =
        ap (λ (m : Mgr). m.events) same ∙ heard.has_events in
      let has_socket : v.mgr.fd ≡ socket_of k w = ap (λ (m : Mgr). m.fd) same ∙ heard.has_socket in
      elim added [
        | inl (e, at_block, _, _, bound, live) ↦ (
          (w.next_block + 3) ∷ [],
          inr refl,
          record {
            slots = heard.slots;
            free = heard.free;
            valid = valid;
            has_pool = has_pool;
            has_events = has_events;
            has_socket = has_socket;
            has_endpoints =
                ap blocks_of (bound ∙ ap (λ es. e ∷ es) none_bound)
                ∙ ap (λ b. b ∷ []) (at_block ∙ next);
            live = λ a. ground (arith, live a, heard.live a, next);
          },
        )
        | inr (unbound, live) ↦ (
          [],
          inl refl,
          record {
            slots = heard.slots;
            free = heard.free;
            valid = valid;
            has_pool = has_pool;
            has_events = has_events;
            has_socket = has_socket;
            has_endpoints = ap blocks_of unbound;
            live = λ a. ap (λ f. f a) live ∙ heard.live a;
          },
        )
      ]

  -- All the endpoints are for the handler at `root`.
  pub started_endpoints : All (λ e. IsRoute e × (e.func ≡ root)) v.mgr.endpoints
  started_endpoints =
      let (_, _, none_bound) = listening-Equipped in
      let (_, added) =
        Returns-at
          (bind_hard-Added k s.listening none (codes "/root") [] root (omega arith) (omega arith))
          s.bind in
      elim added [
        | inl (e, _, to_root, route, eq, _) ↦ rw (eq, none_bound) (((route, to_root), tt))
        | inr (eq, _) ↦ rw eq tt
      ]
