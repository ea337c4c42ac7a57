-- ===== src/Machine/Occurs.antt =====
-- The calls in a history, and whether they failed.
use sculpt.Base.{Bool, minus_one, ◌==ℤ◌, ap, ◌≡◌, [], ◌∷◌, ◌++◌, ◌⊎◌, inr, sym, subst}
use sculpt.Machine.{Call, Trace, Kernel}

abbrev pub Occurs : Call → Trace → Type 0
Occurs c [] = ⊥
Occurs c (d ∷ t) = (c ≡ d) ⊎ Occurs c t

pub Occurs-append : (c : Call) (more t : Trace) → Occurs c t → Occurs c (more ++ t)
Occurs-append c [] t h = h
Occurs-append c (d ∷ more) t h = inr (Occurs-append c more t h)

pub Occurs-later : (c : Call) (t more s : Trace) → t ≡ more ++ s → Occurs c s → Occurs c t
Occurs-later c t more s e o = subst (Occurs c) (sym e) (Occurs-append c more s o)

-- The history ends with this call and the calls `after` it, the latest first; it returned -1 if and only if it `failed`.
abbrev pub Ends : Kernel → (after : Trace) → Call → (failed : Bool) → Trace → Type 0
Ends k after c failed t =
    (s : Trace) × (t ≡ after ++ c ∷ s) × ((k.result (c ∷ s) ==ℤ minus_one) ≡ failed)

pub Ends-more :
    (k : Kernel) (more : Trace) (c : Call) (failed : Bool) (t : Trace)
    → Ends k [] c failed t
    → Ends k more c failed (more ++ t)
Ends-more k more c failed t (s, e, r) = (s, ap (λ x. more ++ x) e, r)
