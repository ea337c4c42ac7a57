-- ===== src/Pool/Take.antt =====
-- `sc_mgr_conn_get_free` on a valid pool.
use sculpt.Base.{
  ℕ, ◌≡◌, refl, true, false, Option, none, some, List, [], ◌∷◌, ℤ, length, get_elem?, set, arith,
  ltb_ℤ, minus_one,
}
use sculpt.Machine.{Conn, World, Kernel, time, active}
use sculpt.Machine.Returns.{Returns, returns}
use sculpt.Pool.{is_active, load_conn, take_free, get_free}
use sculpt.Pool.Valid.{actives, Chain, Valid}
use sculpt.Pool.Preserve.{claim-Valid}

-- All of the world but the pool and the trace.
abbrev pub SameOutsidePool : World → World → Type 0
SameOutsidePool w v = v ≡ record w { mgr = record (w.mgr) { pool = v.mgr.pool }; trace = v.trace }

-- A slot as `sc_mgr_conn_get_free` hands it out at time `now`.
abbrev pub claimed : ℤ → Conn → Conn
claimed now c = record c { last_active = now; creation_time = now; state = active; fd = minus_one }

module _ (k : Kernel) (w : World) (cs : List Conn) where
  -- The slot `i` has been taken off the free list, and the clock was read once.
  pub record Taken (i : ℕ) (free : List ℕ) (r : Option ℕ) (v : World) : Type 0 where
    pub slot : r ≡ some i
    pub old : Conn
    pub at_slot : get_elem? cs i ≡ some old
    pub was_idle : is_active old.state ≡ false
    pub valid : Valid v.mgr.pool (set cs i (claimed (k.clock (time ∷ w.trace)) old)) free
    pub trace : v.trace ≡ time ∷ w.trace
    pub frame : SameOutsidePool w v

  take_free-Taken :
      (i : ℕ) (free : List ℕ) (c : Conn)
      → Valid w.mgr.pool cs (i ∷ free)
      → w.mgr.pool.free_conns ≡ some i
      → get_elem? cs i ≡ some c
      → is_active c.state ≡ false
      → Chain cs c.next free
      → Returns (Taken i free) (take_free k w)
  unfolding take_free load_conn
  take_free-Taken i free c valid head at_i off rest =
      rw (head, valid.array, at_i)
        (returns (record {
          slot = refl;
          old = c;
          at_slot = at_i;
          was_idle = off;
          valid = claim-Valid w.mgr.pool cs i c _ at_i free valid off refl rest;
          trace = refl;
          frame = refl;
        }))

  -- What the call gives: NULL and no change if no slot is free, else the head of the free list.
  abbrev pub Given : List ℕ → Option ℕ → World → Type 0
  Given [] r v = (r ≡ none) × (v ≡ w)
  Given (i ∷ free) r v = Taken i free r v

  pub full_test :
      Valid w.mgr.pool cs [] → ltb_ℤ w.mgr.pool.conn_count w.mgr.pool.max_conn_count ≡ false
  full_test valid =
      let total : actives cs ≡ length cs = omega (arith, valid.total) in
      rw (valid.count, valid.size) (ground arith)

  pub room_test :
      (i : ℕ) (free : List ℕ)
      → Valid w.mgr.pool cs (i ∷ free)
      → ltb_ℤ w.mgr.pool.conn_count w.mgr.pool.max_conn_count ≡ true
  room_test i free valid = rw (valid.count, valid.size) (ground arith)

  -- On a valid pool `sc_mgr_conn_get_free` never faults: it hands out the head of the free list,
  -- marked active with both times set and no descriptor, and leaves a valid pool; or, if every
  -- slot is active, it returns NULL and changes nothing.
  pub get_free-Given :
      (free : List ℕ) → Valid w.mgr.pool cs free → Returns (Given free) (get_free k true w)
  unfolding get_free
  get_free-Given [] valid = rw (full_test valid) (returns (refl, refl))
  get_free-Given (i ∷ free) valid = rw (room_test i free valid) (go valid.chain)
    where
      go : Chain cs w.mgr.pool.free_conns (i ∷ free) → Returns (Taken i free) (take_free k w)
      go (head, (c, at_i, off, rest)) = take_free-Taken i free c valid head at_i off rest
