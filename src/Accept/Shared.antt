-- ===== src/Accept/Shared.antt =====
-- The pool after `cleanup_after_error`.
use sculpt.Base.{ℕ, ◌+◌, ◌≡◌, true, some, List, length, replicate, get_elem?, arith, ◌-ℤ◌}
use sculpt.Machine.{Conn, Kernel, World, and_then}
use sculpt.Machine.Returns.{Returns, and_then-Returns}
use sculpt.Pool.{is_active}
use sculpt.Pool.Valid.{Valid}
use sculpt.Pool.Stack.{take, perform_all}
use sculpt.Pool.Loop.{perform_all-Looped}
use sculpt.Accept.{cleanup_after_error}
use sculpt.Accept.Recover.{cleanup_after_error-Corrupt}

-- After `cleanup_after_error` of an active connection of a valid pool, as many calls of
-- `sc_mgr_conn_get_free` as there were free slots, and two more, all hand out the slot of that
-- connection: the connections that are accepted next share it.
pub cleanup_after_error_shares :
    (k : Kernel) (w : World) (cs : List Conn) (free : List ℕ) (i : ℕ) (c : Conn)
    → Valid w.mgr.pool cs free
    → get_elem? cs i ≡ some c
    → is_active c.state ≡ true
    → let n = length free + 2 in
      Returns
        (λ rs v. rs ≡ replicate n (some i))
        (and_then (cleanup_after_error k (some i) w) λ _. perform_all k (replicate n take))
unfolding ◌-ℤ◌
cleanup_after_error_shares k w cs free i c valid at_i on =
    and_then-Returns (cleanup_after_error-Corrupt k w cs free i c valid at_i on)
      λ _ v (((ds, d, array, at_d, loop), head, _), count, size).
        perform_all-Looped k i (length free + 2) v (ds, d, array, at_d, loop, head)
          (rw (count, size, valid.count, valid.size) (ground (arith, valid.total)))
