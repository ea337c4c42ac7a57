-- ===== src/Pool/Cleanup.antt =====
-- `sc_mgr_conns_cleanup`: the connections past their limits are closed, and only those.
use native.Mathlib.Decide.{ℕ_discrete}
use sculpt.Base.{
  zero, suc, ◌+◌, ◌≤◌, ◌<◌, length, arith, length-set, get_elem?-set_self, get_elem?-set_ne,
  get_elem?-lt, lt_of_get_elem?, append_assoc, ap, ◌++◌, ℕ, ◌≡◌, refl, some, List, [], ◌∷◌, ℤ,
  get_elem?, set, sym, ◌∙◌,
}
use sculpt.Machine.{Conn, World, Kernel, Pool, Trace, time, log}
use sculpt.Machine.Returns.{and_then-Returns, Returns, returns, Returns-mono}
use sculpt.Pool.{to_size, cleanup_loop, conns_cleanup}
use sculpt.Machine.Occurs.{Occurs-append}
use sculpt.Pool.Expire.{Swept, Closed, Stepped, expire-Stepped}
use sculpt.Pool.Valid.{SameLimits, Valid}

module _ (k : Kernel) (now : ℤ) (lim : Pool) (epoll_fd : ℤ) where
  -- What the rounds from slot `i` on do.
  record Sweep (w : World) (cs : List Conn) (i : ℕ) (v : World) : Type 0 where
    slots : List Conn
    free : List ℕ
    valid : Valid v.mgr.pool slots free
    same_length : length slots ≡ length cs
    before : (j : ℕ) (c : Conn) → j < i → get_elem? cs j ≡ some c → get_elem? slots j ≡ some c
    after :
        (j : ℕ) (c : Conn)
        → i ≤ j
        → get_elem? cs j ≡ some c
        → (d : Conn) × (get_elem? slots j ≡ some d)
          × Swept now lim c d
          × Closed now lim epoll_fd c v.trace
    more : Trace
    trace : v.trace ≡ more ++ w.trace

  Closed-append :
      (c : Conn) (more t u : Trace)
      → Closed now lim epoll_fd c t
      → u ≡ more ++ t
      → Closed now lim epoll_fd c u
  Closed-append c more t u done e = rw e (record {
    shut = λ h. Occurs-append _ more t (done.shut h);
    closes = λ h. Occurs-append _ more t (done.closes h);
    removed = λ h. Occurs-append _ more t (done.removed h);
  })

  Sweep-step :
      (w u v : World) (cs : List Conn) (i : ℕ) (c : Conn)
      → get_elem? cs i ≡ some c
      → (st : Stepped k now lim epoll_fd w cs i c u) → Sweep u (set cs i st.slot) (suc i) v
      → Sweep w cs i v
  Sweep-step w u v cs i c at_i st rest = record {
    slots = rest.slots;
    free = rest.free;
    valid = rest.valid;
    same_length = rest.same_length ∙ length-set cs i st.slot;
    before = λ j d lt at_j.
        rest.before j d (omega arith) (get_elem?-set_ne cs i j st.slot (omega arith) ∙ at_j);
    after = later;
    more = rest.more ++ st.more;
    trace =
        rest.trace ∙ ap (◌++◌ rest.more) st.trace ∙ sym (append_assoc rest.more st.more w.trace);
  }
    where
      later :
          (j : ℕ) (d : Conn)
          → i ≤ j
          → get_elem? cs j ≡ some d
          → (e : Conn) × (get_elem? rest.slots j ≡ some e)
            × Swept now lim d e
            × Closed now lim epoll_fd d v.trace
      later j d le at_j = elim (ℕ_discrete i j) [
        | no ne ↦ rest.after j d (omega arith) (get_elem?-set_ne cs i j st.slot ne ∙ at_j)
        | yes eq ↦
            let same : d ≡ c = ground arith in
            (
              st.slot,
              rw (← eq) (
                  rest.before i st.slot (omega arith)
                    (get_elem?-set_self cs i st.slot (lt_of_get_elem? cs i at_i))),
              rw same (st.swept),
              rw same (Closed-append c rest.more u.trace v.trace st.closed rest.trace),
            )
      ]

  cleanup_loop-Sweep :
      (n i : ℕ) (w : World) (cs : List Conn) (free : List ℕ)
      → i + n ≡ length cs
      → Valid w.mgr.pool cs free
      → SameLimits lim w.mgr.pool
      → w.mgr.epoll_fd ≡ epoll_fd
      → Returns (λ _ v. Sweep w cs i v) (cleanup_loop k now n i w)
  unfolding cleanup_loop
  cleanup_loop-Sweep zero i w cs free e valid same efd = returns (record {
    slots = cs;
    free = free;
    valid = valid;
    same_length = refl;
    before = λ j c lt at_j. at_j;
    after = λ j c le at_j. absurd (omega (arith, lt_of_get_elem? cs j at_j));
    more = [];
    trace = refl;
  })
  cleanup_loop-Sweep (suc n) i w cs free e valid same efd =
      let (c, at_i) = get_elem?-lt cs i (omega arith) in
      and_then-Returns (expire-Stepped k now lim epoll_fd w cs free i c valid same efd at_i)
        λ _ u st.
          Returns-mono
            (cleanup_loop-Sweep n (suc i) u (set cs i st.slot) st.free
              (omega (arith, length-set cs i st.slot)) st.valid st.limits st.epoll)
            λ _ v rest. Sweep-step w u v cs i c at_i st rest

-- The effect of a sweep on a valid pool: it is valid, the connections past their limits at the time
-- of the sweep are closed and free, and every other slot is as it was.
abbrev pub CleanedUp : Kernel → World → List Conn → World → Type 0
CleanedUp k w cs v =
    let now = k.clock (time ∷ w.trace) in
    let p = w.mgr.pool in
    (slots : List Conn) × ((free : List ℕ) × Valid v.mgr.pool slots free)
    × (length slots ≡ length cs)
    × ((j : ℕ) (c : Conn)
        → get_elem? cs j ≡ some c
        → (d : Conn) × (get_elem? slots j ≡ some d)
          × Swept now p c d
          × Closed now p w.mgr.epoll_fd c v.trace)

-- On a valid pool `sc_mgr_conns_cleanup` ends without a fault in a valid pool: each connection that
-- is past a limit at the time of the sweep was shut down, closed and taken off epoll and its slot
-- is marked closing, and every other slot is unchanged.
pub conns_cleanup-CleanedUp :
    (k : Kernel) (w : World) (cs : List Conn) (free : List ℕ)
    → Valid w.mgr.pool cs free
    → Returns (λ _ v. CleanedUp k w cs v) (conns_cleanup k w)
unfolding conns_cleanup
conns_cleanup-CleanedUp k w cs free valid =
    let rounds : to_size w.mgr.pool.max_conn_count ≡ length cs = ap to_size valid.size in
    Returns-mono
      (cleanup_loop-Sweep k (k.clock (time ∷ w.trace)) w.mgr.pool w.mgr.epoll_fd
        (to_size w.mgr.pool.max_conn_count) 0 (log time w) cs free (omega arith) valid (refl, refl)
        refl)
      λ _ v s.
        (s.slots, (s.free, s.valid), s.same_length, λ j c at_j. s.after j c (omega arith) at_j)
