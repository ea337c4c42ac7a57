-- ===== src/Pool/Release.antt =====
-- `sc_mgr_conn_release`: of an active slot, and of a slot that is already free.
use sculpt.Base.{
  Distinct, ℕ, ◌≡◌, refl, true, Option, some, List, [], ◌∷◌, ℤ, get_elem?, set, arith,
  get_elem?-set_self, lt_of_get_elem?, length-set, ap, sym, ◌∙◌, length, ◌-ℤ◌, pos,
}
use sculpt.Machine.{and_then, Conn, World, Kernel, Pool, time, closing}
use sculpt.Machine.Returns.{and_then-Returns, Returns, returns, Returns-mono}
use sculpt.Pool.{get_free, is_active, load_conn, release_conn}
use sculpt.Pool.Valid.{Chain, Valid, SameLimits}
use sculpt.Pool.Preserve.{give-Valid}
use sculpt.Pool.Take.{claimed, get_free-Given, SameOutsidePool}

-- A slot as `sc_mgr_conn_release` leaves it.
abbrev pub released : ℤ → Option ℕ → Conn → Conn
released now head c = record c { state = closing; last_active = now; next = head }

module _ (k : Kernel) where
  -- The effect of a release on the pool, whatever the state of the slot.
  pub record Released (w : World) (cs : List Conn) (i : ℕ) (c : Conn) (v : World) : Type 0 where
    pub pool : v.mgr.pool ≡ record (w.mgr.pool) {
      conns = some (set cs i (released (k.clock (time ∷ w.trace)) w.mgr.pool.free_conns c));
      free_conns = some i;
      conn_count = w.mgr.pool.conn_count -ℤ pos 1;
    }
    pub trace : v.trace ≡ time ∷ w.trace
    pub frame : SameOutsidePool w v

  pub release_conn-Released :
      (w : World) (cs : List Conn) (i : ℕ) (c : Conn)
      → w.mgr.pool.conns ≡ some cs
      → get_elem? cs i ≡ some c
      → Returns (λ _ v. Released w cs i c v) (release_conn k (some i) w)
  unfolding release_conn load_conn
  release_conn-Released w cs i c array at_i =
      rw (array, at_i) (returns (record { pool = refl; trace = refl; frame = refl }))

  -- The slot is the head of a valid pool's free list; beside the pool only the clock was read.
  abbrev pub Regained : World → List Conn → List ℕ → ℕ → Conn → World → Type 0
  Regained w cs free i c v =
      Valid v.mgr.pool (set cs i (released (k.clock (time ∷ w.trace)) w.mgr.pool.free_conns c))
        (i ∷ free)
      × (v.trace ≡ time ∷ w.trace)
      × SameOutsidePool w v
      × SameLimits w.mgr.pool v.mgr.pool

  -- A release of an active connection of a valid pool does not fault: the slot becomes the head
  -- of the free list, the count falls by one, and the pool is valid again.
  pub release_conn-Valid :
      (w : World) (cs : List Conn) (free : List ℕ) (i : ℕ) (c : Conn)
      → Valid w.mgr.pool cs free
      → get_elem? cs i ≡ some c
      → is_active c.state ≡ true
      → Returns (λ _ v. Regained w cs free i c v) (release_conn k (some i) w)
  release_conn-Valid w cs free i c valid at_i on =
      Returns-mono (release_conn-Released w cs i c valid.array at_i) λ _ v done. (
        rw done.pool (give-Valid w.mgr.pool cs i c _ at_i free valid on refl refl),
        done.trace,
        done.frame,
        (rw done.pool, rw done.pool),
      )

  -- No pool whose free list starts in a slot that points at itself is valid.
  cycle-not-Valid :
      (p : Pool) (ds : List Conn) (i : ℕ) (d : Conn) (cs : List Conn) (free : List ℕ)
      → p.conns ≡ some ds
      → get_elem? ds i ≡ some d
      → d.next ≡ some i
      → p.free_conns ≡ some i
      → ¬ Valid p cs free
  cycle-not-Valid p ds i d cs free array at_i self head valid =
      go cs p.free_conns free (ground (arith, valid.array)) head valid.chain valid.distinct
    where
      go :
          (es : List Conn) (q : Option ℕ) (f : List ℕ)
          → es ≡ ds
          → q ≡ some i
          → Chain es q f
          → Distinct f
          → ⊥
      go es q [] same e ch apart = cc
      go es q (j ∷ []) same e (e', (c, at_j, off, rest)) apart = ground arith
      go es q (j ∷ (l ∷ f)) same e (e', (c, at_j, off, (e'', rest))) apart = ground arith

  -- The state after a second release of the connection `i`: the slot points at itself, so the
  -- free list never ends, and no list of free slots makes the pool valid.
  abbrev pub Corrupt : ℕ → World → Type 0
  Corrupt i v =
      ((ds : List Conn) × (d : Conn) × (v.mgr.pool.conns ≡ some ds)
        × (get_elem? ds i ≡ some d)
        × (d.next ≡ some i))
      × (v.mgr.pool.free_conns ≡ some i)
      × ((cs : List Conn) (free : List ℕ) → ¬ Valid v.mgr.pool cs free)

  -- A release of the slot that already heads the free list.
  pub Corrupt-Released :
      (u v : World) (cs : List Conn) (i : ℕ) (c : Conn)
      → get_elem? cs i ≡ some c
      → u.mgr.pool.free_conns ≡ some i
      → Released u cs i c v
      → Corrupt i v
  Corrupt-Released u v cs i c at_i head done =
      let d = released (k.clock (time ∷ u.trace)) u.mgr.pool.free_conns c in
      let ds = set cs i d in
      let array : v.mgr.pool.conns ≡ some ds = rw done.pool in
      let at_d = get_elem?-set_self cs i d (lt_of_get_elem? cs i at_i) in
      let head' : v.mgr.pool.free_conns ≡ some i = rw done.pool in
      (
        (ds, d, array, at_d, head),
        head',
        λ es f. cycle-not-Valid v.mgr.pool ds i d es f array at_d head head',
      )

  -- `sc_mgr_conn_release` has no guard against a slot that is free: releasing the head of the free
  -- list once more makes the slot point at itself and leaves a pool that no free list fits.
  pub release_twice-Corrupt :
      (w : World) (cs : List Conn) (free : List ℕ) (i : ℕ) (c : Conn)
      → Valid w.mgr.pool cs free
      → get_elem? cs i ≡ some c
      → is_active c.state ≡ true
      → Returns
          (λ _ v. Corrupt i v)
          (and_then (release_conn k (some i) w) λ _. release_conn k (some i))
  release_twice-Corrupt w cs free i c valid at_i on =
      and_then-Returns (release_conn-Released w cs i c valid.array at_i) λ _ u once.
        let c' = released (k.clock (time ∷ w.trace)) w.mgr.pool.free_conns c in
        let at_i' = get_elem?-set_self cs i c' (lt_of_get_elem? cs i at_i) in
        Returns-mono (release_conn-Released u (set cs i c') i c' (rw once.pool) at_i')
          λ _ v twice. Corrupt-Released u v (set cs i c') i c' at_i' (rw once.pool) twice

  -- What is left of the pool's free list and count after a connection was taken and given back.
  abbrev pub Restored : World → List ℕ → World → Type 0
  Restored w free v =
      ((ds : List Conn) × Valid v.mgr.pool ds free)
      × (v.mgr.pool.conn_count ≡ w.mgr.pool.conn_count)
      × (v.trace ≡ time ∷ time ∷ w.trace)

  same_count :
      (p q : Pool) (cs ds : List Conn) (free : List ℕ)
      → Valid p cs free
      → Valid q ds free
      → length ds ≡ length cs
      → q.conn_count ≡ p.conn_count
  same_count p q cs ds free v v' e =
      v'.count ∙ ap pos (omega (arith, v.total, v'.total)) ∙ sym v.count

  -- Taking a connection from a valid pool with a free slot and releasing it at once gives back a
  -- valid pool with the same free list and the same count; the clock was read twice.
  release-get_free :
      (w : World) (cs : List Conn) (i : ℕ) (free : List ℕ)
      → Valid w.mgr.pool cs (i ∷ free)
      → Returns (λ _ v. Restored w (i ∷ free) v) (and_then (get_free k true w) (release_conn k))
  release-get_free w cs i free valid =
      and_then-Returns (get_free-Given k w cs (i ∷ free) valid) λ r u got.
        let c = claimed (k.clock (time ∷ w.trace)) got.old in
        let at_i = get_elem?-set_self cs i c (lt_of_get_elem? cs i got.at_slot) in
        rw got.slot (
          Returns-mono (release_conn-Valid u (set cs i c) free i c got.valid at_i refl)
            λ _ v (valid', trace, frame, limits). (
              (_, valid'),
              same_count w.mgr.pool v.mgr.pool cs _ (i ∷ free) valid valid'
                  (length-set _ i _ ∙ length-set cs i c),
              rw (trace, got.trace),
            ))
