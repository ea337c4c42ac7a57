-- ===== src/Examples/Pool.antt =====
-- The pool's theorems at the sample pool.
use sculpt.Base.{List, arith, ◌≡◌, refl, true, some, [], ◌∷◌, pos, suc}
use sculpt.Machine.Returns.{Returns}
use sculpt.Sample.{kernel, world, slots, pool-Valid, busy}
use sculpt.Pool.{release_conn, conns_cleanup, pool_init}
use sculpt.Pool.Release.{release_conn-Valid, Regained}
use sculpt.Pool.Stack.{Op, take, give, answers, left, perform_all, Stands, perform_all-Stands}
use sculpt.Pool.Init.{Ready, pool_init-Ready}
use sculpt.Pool.Cleanup.{CleanedUp, conns_cleanup-CleanedUp}

release_conn-Valid_example :
    Returns
      (λ _ v. Regained (kernel true) world slots (1 ∷ []) 0 busy v)
      (release_conn (kernel true) (some 0) world)
release_conn-Valid_example =
    release_conn-Valid (kernel true) world slots (1 ∷ []) 0 busy pool-Valid refl refl

pool_init-Ready_example :
    Returns (Ready 19 world) (pool_init (kernel true) true (pos (suc 19)) world)
pool_init-Ready_example = pool_init-Ready (kernel true) world 19

conns_cleanup-CleanedUp_example :
    Returns (λ _ v. CleanedUp (kernel true) world slots v) (conns_cleanup (kernel true) world)
conns_cleanup-CleanedUp_example =
    conns_cleanup-CleanedUp (kernel true) world slots (1 ∷ []) pool-Valid

-- Two slots are asked for, of which one is free; then slot 0 is given back and asked for.
abbrev calls : List Op
calls = take ∷ (take ∷ (give 0 ∷ (take ∷ [])))

perform_all-Stands_example :
    Returns
      (λ rs v. (rs ≡ answers calls (1 ∷ [])) × Stands 2 v (left calls (1 ∷ [])))
      (perform_all (kernel true) calls world)
perform_all-Stands_example =
    perform_all-Stands (kernel true) 2 calls world (1 ∷ []) (slots, refl, pool-Valid)
      (tt, (tt, ((omega arith, refl), (tt, tt))))
