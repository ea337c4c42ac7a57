-- ===== src/Machine/Returns.antt =====
-- Total correctness: the run ends without a fault and with fuel to spare, in a result and a world
-- that the postcondition holds of.
use sculpt.Machine.{World, Run, ok, Cmd, and_then, fault, out_of_fuel}
use sculpt.Base.{◌≡◌, refl, subst}

pub data Returns {A : Type 0} (P : A → World → Type 0) : Run A → Type 0 where
  returns : {a : A} {w : World} → P a w → Returns P (ok a w)

-- What holds of a run that ended; a fault is for other lemmas to rule out.
abbrev At : {A : Type 0} → (A → World → Type 0) → Run A → Type 0
At P (ok a w) = P a w
At P fault = Unit
At P out_of_fuel = Unit

module _ {A : Type 0} {P : A → World → Type 0} where
  pub and_then-Returns :
      {B : Type 0} {Q : B → World → Type 0} {r : Run A} {k : A → Cmd B}
      → Returns P r
      → ((a : A) (w : World) → P a w → Returns Q (k a w))
      → Returns Q (and_then r k)
  and_then-Returns (returns p) next = next _ _ p

  pub Returns-mono :
      {Q : A → World → Type 0} {r : Run A}
      → Returns P r
      → ((a : A) (w : World) → P a w → Q a w)
      → Returns Q r
  Returns-mono (returns p) weaken = returns (weaken _ _ p)

  -- A run whose second part faults wherever the first may end.
  pub and_then-fault :
      {B : Type 0} {r : Run A} {k : A → Cmd B}
      → Returns P r
      → ((a : A) (w : World) → P a w → k a w ≡ fault)
      → and_then r k ≡ fault
  and_then-fault (returns p) h = h _ _ p

  -- The result and the world of a run that returns.
  pub Returns-ok : {r : Run A} → Returns P r → (a : A) × (w : World) × (r ≡ ok a w) × P a w
  Returns-ok (returns p) = (_, _, refl, p)

  Returns-At : {r : Run A} → Returns P r → At P r
  Returns-At (returns p) = p

  -- The postcondition, where the result and the world are known.
  pub Returns-at : {r : Run A} {a : A} {w : World} → Returns P r → r ≡ ok a w → P a w
  Returns-at h e = subst (At P) e (Returns-At h)
