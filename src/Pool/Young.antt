-- ===== src/Pool/Young.antt =====
-- `sc_mgr_conns_cleanup` when no connection is past its limits.
use sculpt.Base.{
  ℕ, zero, suc, ◌+◌, ◌≡◌, refl, false, some, List, ◌∷◌, length, arith, ℤ, pos, get_elem?,
  get_elem?-lt, ap, ◌∙◌,
}
use sculpt.Machine.{Conn, Kernel, World, ok, log, time}
use sculpt.Pool.{is_expired, expire, cleanup_loop, conns_cleanup, to_size}
use sculpt.Pool.Slots.{load_conn-ok}

module _ (k : Kernel) (now : ℤ) (w : World) (cs : List Conn) (array : w.mgr.pool.conns ≡ some cs)
    (young : (j : ℕ) (c : Conn)
      → get_elem? cs j ≡ some c
      → is_expired now w.mgr.pool c ≡ false) where
  cleanup_loop-young : (n i : ℕ) → i + n ≡ length cs → cleanup_loop k now n i w ≡ ok tt w
  unfolding cleanup_loop expire
  cleanup_loop-young zero i e = refl
  cleanup_loop-young (suc n) i e =
      let (c, at_i) = get_elem?-lt cs i (omega arith) in
      rw (load_conn-ok w cs i c array at_i, young i c at_i)
        (cleanup_loop-young n (suc i) (omega (arith, e)))

-- It asks for the time and changes nothing.
pub conns_cleanup-young :
    (k : Kernel) (w : World) (cs : List Conn) (n : ℕ)
    → w.mgr.pool.conns ≡ some cs
    → w.mgr.pool.max_conn_count ≡ pos n
    → length cs ≡ n
    → ((j : ℕ) (c : Conn)
        → get_elem? cs j ≡ some c
        → is_expired (k.clock (time ∷ w.trace)) w.mgr.pool c ≡ false)
    → conns_cleanup k w ≡ ok tt (log time w)
unfolding conns_cleanup
conns_cleanup-young k w cs n array size len young =
    ap (λ m. cleanup_loop k (k.clock (time ∷ w.trace)) (to_size m) 0 (log time w)) size
    ∙ cleanup_loop-young k (k.clock (time ∷ w.trace)) (log time w) cs array young n 0
        (omega (arith, len))
