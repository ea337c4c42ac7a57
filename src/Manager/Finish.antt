-- ===== src/Manager/Finish.antt =====
-- `sc_mgr_finish`: what it closes and frees, and a manager that has no pool yet.
use sculpt.Base.{
  ◌*◌, false, suc, pos, none, inl, inr, ℕ, ◌≡◌, refl, true, some, List, [], ◌∷◌, ℤ, has, Distinct,
  if◌then◌else◌, arith, ◌∙◌, ap, Bool-cases,
}
use sculpt.Code.{malloc_err, ok_code}
use sculpt.Manager.Create.{mgr_create-Made}
use sculpt.Machine.{
  malloc, Call, AddrInfo, Kernel, fault, Mgr, put_mgr, ◌>>◌, Conn, Endpoint, World, Trace, free,
  close, ok, and_then,
}
use sculpt.Machine.Occurs.{Occurs}
use sculpt.Machine.Heap.{release}
use sculpt.Machine.Blocks.{Live, Live-mark, released_block, release-ok}
use sculpt.Machine.Returns.{returns, Returns, Returns-mono, and_then-Returns}
use sculpt.Pool.{pool_init}
use sculpt.Pool.Valid.{Valid}
use sculpt.Pool.Destroy.{pool_init-refused, pool_destroy-fault, closings, pool_destroy-destroyed}
use sculpt.Manager.{mgr_create, is_negative, free_endpoints, close_open, mgr_finish}

abbrev pub blocks_of : List Endpoint → List ℕ
blocks_of [] = []
blocks_of (e ∷ es) = e.block ∷ blocks_of es

-- The calls that free the endpoints, in front of the history.
pub frees : List Endpoint → Trace → Trace
frees [] t = t
frees (e ∷ es) t = frees es (free e.block ∷ t)

-- A descriptor is closed if it is not negative.
abbrev pub closing_of : ℤ → Trace → Trace
closing_of n t = if is_negative n then t else close n ∷ t

close_open-ok :
    (n : ℤ) (w : World) → close_open n w ≡ ok tt (record w { trace = closing_of n w.trace })
unfolding close_open
close_open-ok n w = elim (Bool-cases (is_negative n)) [ inl e ↦ rw e refl | inr e ↦ rw e refl ]

-- `v` has the calls `t`, the manager of `w`, and the live blocks of `w` without `bs`.
pub record Freed (w : World) (t : Trace) (bs : List ℕ) (v : World) : Type 0 where
  pub trace : v.trace ≡ t
  pub gone : (x : ℕ) → v.live x ≡ (if has x bs then false else w.live x)
  pub mgr : v.mgr ≡ w.mgr

free_endpoints-Freed :
    (es : List Endpoint) (w : World)
    → Distinct (blocks_of es)
    → Live w.live (blocks_of es)
    → Returns (λ _ v. Freed w (frees es w.trace) (blocks_of es) v) (free_endpoints es w)
unfolding free_endpoints frees
free_endpoints-Freed [] w apart live =
    returns (record { trace = refl; gone = λ x. refl; mgr = refl })
free_endpoints-Freed (e ∷ es) w apart live =
    let u = released_block w e.block in
    rw (release-ok w e.block live.0) (
      Returns-mono
        (free_endpoints-Freed es u apart.1 (Live-mark w.live e.block (blocks_of es) apart.0 live.1))
        λ _ v f. record { trace = f.trace; gone = λ x. f.gone x ∙ ground arith; mgr = f.mgr })

-- The part of `sc_mgr_finish` from the events on.
tail-Freed :
    (u : World) (m : Mgr) (n : ℤ) (es : List Endpoint) (ev b : ℕ)
    → Distinct (ev ∷ (b ∷ blocks_of es))
    → Live u.live (ev ∷ (b ∷ blocks_of es))
    → Returns
        (λ _ v.
          (v.trace ≡ free b ∷ frees es (closing_of n (free ev ∷ u.trace)))
          × ((x : ℕ) → v.live x ≡ (if has x (ev ∷ (b ∷ blocks_of es)) then false else u.live x)))
        (and_then
          (release ev u)
          λ _. close_open n >> (free_endpoints es >> (put_mgr m >> release b)))
tail-Freed u m n es ev b apart live =
    let u' = released_block u ev in
    let u'' = record u' { trace = closing_of n u'.trace } in
    let held = Live-mark u.live ev (b ∷ blocks_of es) apart.0 live.1 in
    rw (release-ok u ev live.0, close_open-ok n u')
      (and_then-Returns (free_endpoints-Freed es u'' apart.1.1 held.1) λ _ v f.
        let last : v.live b ≡ true = f.gone b ∙ ground arith in
        rw (release-ok (record v { mgr = m }) b last)
          (returns (ap (◌∷◌ (free b)) f.trace, λ x. ground (arith, f.gone x))))

-- The calls of `sc_mgr_finish`, the latest first.
abbrev pub farewell : World → List Conn → ℕ → ℕ → ℕ → Trace
farewell w cs pool_block events_block b =
    free b
    ∷ frees w.mgr.endpoints (
        closing_of w.mgr.fd
          (free events_block ∷ closing_of w.mgr.epoll_fd (free pool_block ∷ closings cs w.trace)))

Occurs-frees : (c : Call) (es : List Endpoint) (t : Trace) → Occurs c t → Occurs c (frees es t)
unfolding frees
Occurs-frees c [] t o = o
Occurs-frees c (e ∷ es) t o = Occurs-frees c es (free e.block ∷ t) (inr o)

-- The socket is among what is closed.
pub farewell-closes :
    (w : World) (cs : List Conn) (pb ev b : ℕ)
    → is_negative w.mgr.fd ≡ false
    → Occurs (close w.mgr.fd) (farewell w cs pb ev b)
farewell-closes w cs pb ev b opened =
    inr (Occurs-frees (close w.mgr.fd) w.mgr.endpoints _ (rw opened (inl refl)))

module _ (w : World) (cs : List Conn) (slots : List ℕ) (pb ev b : ℕ) where
  -- `sc_mgr_finish` of a manager with a valid pool and an events array, all in live and distinct
  -- blocks, does not fault: it closes the active connections, the epoll descriptor and the socket if
  -- they are not negative, and frees the pool, the events, each endpoint and the manager, each once
  -- and in this order, and no other block.
  pub mgr_finish-Finished :
      Valid w.mgr.pool cs slots
      → w.mgr.pool_block ≡ some pb
      → w.mgr.events ≡ some ev
      → Distinct (pb ∷ (ev ∷ (b ∷ blocks_of w.mgr.endpoints)))
      → Live w.live (pb ∷ (ev ∷ (b ∷ blocks_of w.mgr.endpoints)))
      → Returns
          (λ _ v.
            (v.trace ≡ farewell w cs pb ev b)
            × ((x : ℕ)
                → v.live x ≡ (
                    if has x (pb ∷ (ev ∷ (b ∷ blocks_of w.mgr.endpoints)))
                    then false
                    else w.live x)))
          (mgr_finish (some b) w)
  unfolding mgr_finish
  mgr_finish-Finished valid pool_at events_at apart live =
      rw (pool_destroy-destroyed w cs slots pb valid pool_at live.0, close_open-ok, events_at)
        (Returns-mono
          (tail-Freed _ _ w.mgr.fd w.mgr.endpoints ev b apart.1
            (Live-mark w.live pb (ev ∷ (b ∷ blocks_of w.mgr.endpoints)) apart.0 live.1))
          λ _ v (trace, gone). (trace, λ x. gone x ∙ ground arith))

-- Where the array of connections cannot be allocated, `sc_mgr_conn_pool_init` with a positive bound returns SC_MALLOC_ERR,
-- and `sc_mgr_finish` of the manager then faults, whatever has become of the rest of it, as long as its pool is as
-- `sc_mgr_conn_pool_init` left it.
pub mgr_finish-pool_init :
    (k : Kernel) (w : World) (n b : ℕ)
    → k.grants (malloc (suc n * 40) ∷ w.trace) ≡ false
    → Returns
        (λ r v.
          (r ≡ malloc_err)
          × ((u : World) → u.mgr.pool ≡ v.mgr.pool → mgr_finish (some b) u ≡ fault))
        (pool_init k true (pos (suc n)) w)
unfolding mgr_finish
mgr_finish-pool_init k w n b refused =
    let (v, e, size, array) = pool_init-refused k w n refused in
    rw e (
      returns (
        refl,
        λ u same.
            rw
              (pool_destroy-fault u n (ap (λ p. p.max_conn_count) same ∙ size)
                (ap (λ p. p.conns) same ∙ array))
              refl,
      ))

-- Where `sc_mgr_create` succeeds, the pool's fields are as they were in memory. Where that memory holds a positive
-- bound and a NULL array, `sc_mgr_finish` of the manager faults, whatever has become of the rest of it, as long as
-- its pool is as `sc_mgr_create` left it.
pub mgr_finish-mgr_create :
    (k : Kernel) (w : World) (a : AddrInfo) (n : ℕ)
    → w.live w.next_block ≡ false
    → k.fresh_mgr.pool.max_conn_count ≡ pos (suc n)
    → k.fresh_mgr.pool.conns ≡ none
    → Returns
        (λ r v.
          r.0 ≡ ok_code
          → (v.mgr.pool ≡ k.fresh_mgr.pool)
            × ((u : World) → u.mgr.pool ≡ v.mgr.pool → mgr_finish r.1 u ≡ fault))
        (mgr_create k a w)
unfolding mgr_finish
mgr_finish-mgr_create k w a n unused size array = Returns-mono (mgr_create-Made k w a unused) λ r v.
    elim [
      | inl made ↦ λ ok. (
        made.junk_pool,
        λ u same.
            let junk : u.mgr.pool ≡ k.fresh_mgr.pool = same ∙ made.junk_pool in
            let bound : u.mgr.pool.max_conn_count ≡ pos (suc n) =
              ap (λ p. p.max_conn_count) junk ∙ size in
            let null_array : u.mgr.pool.conns ≡ none = ap (λ p. p.conns) junk ∙ array in
            rw (made.block, pool_destroy-fault u n bound null_array) refl,
      )
      | inr not_made ↦ λ ok. absurd (not_made.code ok)
    ]
