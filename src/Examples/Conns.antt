-- ===== src/Examples/Conns.antt =====
-- A connection accepted and a connection given up, at the sample world.
use sculpt.Base.{refl, ◌≡◌, replicate, true, some, [], ◌∷◌}
use sculpt.Machine.Returns.{Returns}
use sculpt.Sample.{kernel, world, slots, pool-Valid, busy}
use sculpt.Accept.{create_new_connection, return_500, cleanup_after_error}
use sculpt.Accept.Outcome.{Outcome, create_new_connection-Outcome}
use sculpt.Accept.Recover.{GivenUp, return_500-Valid}
use sculpt.Accept.Shared.{cleanup_after_error_shares}
use sculpt.Machine.{and_then}
use sculpt.Pool.Stack.{take, perform_all}

create_new_connection-Outcome_example :
    Returns (Outcome (kernel true) world slots (1 ∷ [])) (create_new_connection (kernel true) world)
create_new_connection-Outcome_example =
    create_new_connection-Outcome (kernel true) world slots (1 ∷ []) pool-Valid

return_500-Valid_example :
    Returns
      (λ _ v. GivenUp (kernel true) world slots (1 ∷ []) 0 busy v)
      (return_500 (kernel true) 0 world)
return_500-Valid_example =
    return_500-Valid (kernel true) world slots (1 ∷ []) 0 busy pool-Valid refl refl

cleanup_after_error_shares_example :
    Returns
      (λ rs v. rs ≡ replicate 3 (some 0))
      (and_then
        (cleanup_after_error (kernel true) (some 0) world)
        λ _. perform_all (kernel true) (replicate 3 take))
cleanup_after_error_shares_example =
    cleanup_after_error_shares (kernel true) world slots (1 ∷ []) 0 busy pool-Valid refl refl
