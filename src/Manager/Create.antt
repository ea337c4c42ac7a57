-- ===== src/Manager/Create.antt =====
-- `sc_mgr_create` and `sc_mgr_listen` on every branch.
use sculpt.Base.{
  clash, ◌↔◌, ℕ, ◌+◌, ◌≡◌, ◌≢◌, refl, true, false, none, some, [], ◌∷◌, ℤ, pos, ◌==ℤ◌, minus_one,
  ◌==◌, if◌then◌else◌, ◌⊎◌, inl, inr, Bool-cases, arith,
}
use sculpt.Machine.{
  listen, getnameinfo, AddrInfo, World, Kernel, log, close, socket, setsockopt, bind, malloc,
}
use sculpt.Machine.Heap.{alloc, mark, release}
use sculpt.Machine.Returns.{Returns, returns}
use sculpt.Code.{malloc_err, Code, ok_code}
use sculpt.Machine.Occurs.{Occurs}
use sculpt.Manager.{
  mgr_create, create_in, mgr_listen, Created, name_socket, abandon, mgr_size, is_negative,
  default_backlog, default_max_events,
}

-- The socket that the manager in the block would use.
abbrev pub socket_of : Kernel → World → ℤ
socket_of k w = k.result (socket ∷ malloc mgr_size ∷ w.trace)

-- A manager in a live block: its socket is open, it does not listen yet and has no endpoint,
-- and its pool is what memory held before.
pub record Made (k : Kernel) (w : World) (a : AddrInfo) (r : Created) (v : World) : Type 0 where
  pub code : r.0 ≡ ok_code
  pub block : r.1 ≡ some w.next_block
  pub live : (x : ℕ) → v.live x ≡ (if x == w.next_block then true else w.live x)
  pub next_block : v.next_block ≡ w.next_block + 1
  pub addr : v.mgr.addr_info ≡ a
  pub open_fd : v.mgr.fd ≡ socket_of k w
  pub valid_fd : is_negative (socket_of k w) ≡ false
  pub idle : v.mgr.listening ≡ false
  pub no_epoll : v.mgr.epoll_fd ≡ minus_one
  pub no_endpoints : v.mgr.endpoints ≡ []
  pub junk_pool : v.mgr.pool ≡ k.fresh_mgr.pool

-- No manager: the blocks are those that were live, and a socket that was opened is closed.
pub record NotMade (k : Kernel) (w : World) (r : Created) (v : World) : Type 0 where
  pub code : r.0 ≢ ok_code
  pub null : r.1 ≡ none
  pub live : (x : ℕ) → v.live x ≡ w.live x
  pub shut :
      (r.0 ≡ malloc_err)
      ⊎ (is_negative (socket_of k w) ≡ true)
      ⊎ Occurs (close (socket_of k w)) v.trace

module _ (k : Kernel) (w : World) (a : AddrInfo) (unused : w.live w.next_block ≡ false) where
  -- The world in which the socket has been opened.
  abbrev opened : World
  opened = record w {
    mgr = record (k.fresh_mgr) {
      addr_info = a;
      backlog = default_backlog;
      max_events = default_max_events;
      listening = false;
      epoll_fd = minus_one;
      endpoints = [];
      fd = socket_of k w;
    };
    trace = socket ∷ malloc mgr_size ∷ w.trace;
    live = mark w.live w.next_block true;
    next_block = w.next_block + 1;
  }

  abbrev Result : Created → World → Type 0
  Result r v = Made k w a r v ⊎ NotMade k w r v

  abandon-NotMade :
      (u : World) (e : Code)
      → e ≢ ok_code
      → u.live ≡ mark w.live w.next_block true
      → Returns Result (abandon w.next_block (socket_of k w) e u)
  unfolding abandon release
  abandon-NotMade u e bad live =
      let held : u.live w.next_block ≡ true = rw live (ground arith) in
      rw held (
        returns (
          inr (record {
            code = bad;
            null = refl;
            live = λ x. rw live (ground arith);
            shut = inr (inr (inr (inl refl)));
          })))

  name_socket-Result :
      is_negative (socket_of k w) ≡ false
      → Returns Result (name_socket k w.next_block (socket_of k w) a opened)
  unfolding name_socket
  name_socket-Result valid =
      let s = socket_of k w in
      let u = log (setsockopt s) opened in
      elim (Bool-cases (is_negative (k.result u.trace))) [
        | inl e ↦ rw e (abandon-NotMade u _ (λ e. cc) refl)
        | inr e ↦ rw e (elim (Bool-cases (k.result (bind s a ∷ u.trace) ==ℤ pos 0)) [
          | inl f ↦ rw f (
              returns (
                inl (record {
                  code = refl;
                  block = refl;
                  live = λ x. refl;
                  next_block = refl;
                  addr = refl;
                  open_fd = refl;
                  valid_fd = valid;
                  idle = refl;
                  no_epoll = refl;
                  no_endpoints = refl;
                  junk_pool = refl;
                })))
          | inr f ↦ rw f (abandon-NotMade (log (bind s a) u) _ (λ e. cc) refl)
        ])
      ]

  -- From an unused block, `sc_mgr_create` never faults. It returns SC_OK with a manager in a live
  -- block, over the given address, with an open socket, not listening, no epoll descriptor, no
  -- endpoint and the pool that memory happened to hold; or NULL with an error code, with no block left allocated and no socket left open.
  pub mgr_create-Made : Returns (λ r v. Made k w a r v ⊎ NotMade k w r v) (mgr_create k a w)
  unfolding mgr_create create_in alloc release
  mgr_create-Made = elim (Bool-cases (k.grants (malloc mgr_size ∷ w.trace))) [
    | inr e ↦
        rw e (
          returns (inr (record { code = λ e. cc; null = refl; live = λ x. refl; shut = inl refl })))
    | inl e ↦ rw e (elim (Bool-cases (is_negative (socket_of k w))) [
      | inr valid ↦ rw valid (name_socket-Result valid)
      | inl bad ↦
          rw (bad, fresh_held)
            (returns (
              inr (record {
                code = λ e. cc;
                null = refl;
                live = λ x. ground arith;
                shut = inr (inl bad);
              })))
    ])
  ]
    where
      fresh_held : mark w.live w.next_block true w.next_block ≡ true
      fresh_held = ground arith

-- `sc_mgr_listen` changes at most whether the manager listens.
pub mgr_listen_frame :
    (k : Kernel) (w : World)
    → Returns
        (λ r v.
          (v.mgr ≡ record (w.mgr) { listening = v.mgr.listening })
          × (v.live ≡ w.live)
          × (v.next_block ≡ w.next_block))
        (mgr_listen k w)
unfolding mgr_listen
mgr_listen_frame k w =
    let asks = listen w.mgr.fd w.mgr.backlog in
    elim (Bool-cases (is_negative (k.result (asks ∷ w.trace)))) [
      | inl e ↦ rw e (returns (refl, refl, refl))
      | inr e ↦
          rw e
            (elim (Bool-cases (k.result (getnameinfo w.mgr.addr_info ∷ asks ∷ w.trace) ==ℤ pos 0)) [
              | inl f ↦ rw f (returns (refl, refl, refl))
              | inr f ↦ rw f (returns (refl, refl, refl))
            ])
    ]

-- `sc_mgr_listen` of a manager that does not listen: the flag is set exactly when the result is
-- SC_OK, and nothing else of the manager changes; on SC_OK the socket has been told to listen.
pub mgr_listen-flag :
    (k : Kernel) (w : World)
    → w.mgr.listening ≡ false
    → Returns
        (λ r v.
          ((v.mgr.listening ≡ true) ↔ (r ≡ ok_code))
          × (v.mgr ≡ record (w.mgr) { listening = v.mgr.listening })
          × (r ≡ ok_code → Occurs (listen w.mgr.fd w.mgr.backlog) v.trace))
        (mgr_listen k w)
unfolding mgr_listen
mgr_listen-flag k w quiet =
    let asks = listen w.mgr.fd w.mgr.backlog in
    elim (Bool-cases (is_negative (k.result (asks ∷ w.trace)))) [
      | inl e ↦ rw e (returns ((λ h. clash h quiet, λ h. cc), refl, λ h. inl refl))
      | inr e ↦
          rw e
            (elim (Bool-cases (k.result (getnameinfo w.mgr.addr_info ∷ asks ∷ w.trace) ==ℤ pos 0)) [
              | inl f ↦ rw f (returns ((λ h. refl, λ h. refl), refl, λ h. inr (inl refl)))
              | inr f ↦ rw f (returns ((λ h. clash h quiet, λ h. cc), refl, λ h. inr (inl refl)))
            ])
    ]
