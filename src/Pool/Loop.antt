-- ===== src/Pool/Loop.antt =====
-- A pool whose free list has become a loop of one slot.
use sculpt.Base.{
  ℕ, zero, suc, ◌+◌, ◌≡◌, ◌≤◌, refl, true, some, List, pos_part, neg_part, ltb_ℤ, ◌+ℤ◌, arith,
  replicate, get_elem?, get_elem?-set_self, lt_of_get_elem?,
}
use sculpt.Machine.{Conn, Kernel, World}
use sculpt.Machine.Returns.{Returns, returns, and_then-Returns}
use sculpt.Pool.{load_conn, take_free, get_free}
use sculpt.Pool.Stack.{take, perform, perform_all}

-- At least `n` connections fewer than the bound.
abbrev pub Room : ℕ → World → Type 0
Room n w =
    pos_part w.mgr.pool.conn_count + n + neg_part w.mgr.pool.max_conn_count
    ≤ pos_part w.mgr.pool.max_conn_count + neg_part w.mgr.pool.conn_count

-- The free list begins at the slot `i`, which points at itself.
abbrev pub Looped : ℕ → World → Type 0
Looped i w =
    (cs : List Conn) × (c : Conn) × (w.mgr.pool.conns ≡ some cs)
    × (get_elem? cs i ≡ some c)
    × (c.next ≡ some i)
    × (w.mgr.pool.free_conns ≡ some i)

module _ (k : Kernel) (i : ℕ) where
  get_free-Looped :
      (n : ℕ) (w : World)
      → Looped i w
      → Room (suc n) w
      → Returns (λ r v. (r ≡ some i) × Looped i v × Room n v) (get_free k true w)
  unfolding get_free take_free load_conn ◌+ℤ◌
  get_free-Looped n w (cs, c, array, at_i, loop, head) room =
      let test : ltb_ℤ w.mgr.pool.conn_count w.mgr.pool.max_conn_count ≡ true =
        ground (arith, room) in
      rw (test, head, array, at_i)
        (returns (
          refl,
          (_, _, refl, get_elem?-set_self cs i _ (lt_of_get_elem? cs i at_i), loop, loop),
          ground (arith, room),
        ))

  -- Every connection that is taken is the same slot.
  pub perform_all-Looped :
      (n : ℕ) (w : World)
      → Looped i w
      → Room n w
      → Returns (λ rs v. rs ≡ replicate n (some i)) (perform_all k (replicate n take) w)
  unfolding perform_all perform
  perform_all-Looped zero w looped room = returns refl
  perform_all-Looped (suc n) w looped room =
      and_then-Returns (get_free-Looped n w looped room) λ r v (same, looped', room').
        and_then-Returns (perform_all-Looped n v looped' room')
          λ rs u all. returns (rw (same, all) refl)
