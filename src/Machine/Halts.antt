-- ===== src/Machine/Halts.antt =====
-- Runs that do not run out of fuel: they end in a result, or in a fault.
use sculpt.Base.{
  ℕ, ◌∷◌, ◌≤◌, ◌≡◌, ◌≢◌, refl, ℤ, Option, none, some, Bool-cases, ◌⊎◌, inl, inr, Bool, true, false,
  if◌then◌else◌, pos, arith,
}
use sculpt.Machine.{Kernel, World, Run, ok, fault, out_of_fuel, Cmd, and_then, need, when, malloc}
use sculpt.Machine.Heap.{alloc, release}
use sculpt.Machine.Reads.{count_reads}

-- The run ends, and if it does not fault then with the postcondition.
pub data Halts {A : Type 0} (P : A → World → Type 0) : Run A → Type 0 where
  halts : {a : A} {w : World} → P a w → Halts P (ok a w)
  faults : Halts P fault

-- At least `n` reads have been made.
abbrev pub Past : {A : Type 0} → ℤ → ℕ → A → World → Type 0
Past fd n a w = n ≤ count_reads fd w.trace

module _ {A : Type 0} {P : A → World → Type 0} where
  pub and_then-Halts :
      {B : Type 0} {Q : B → World → Type 0} {r : Run A} {f : A → Cmd B}
      → Halts P r
      → ((a : A) (w : World) → P a w → Halts Q (f a w))
      → Halts Q (and_then r f)
  and_then-Halts (halts p) next = next _ _ p
  and_then-Halts faults next = faults

  pub need-Halts : (o : Option A) (w : World) → ((a : A) → P a w) → Halts P (need o w)
  need-Halts none w h = faults
  need-Halts (some a) w h = halts (h a)

  pub not_out_of_fuel : (r : Run A) → Halts P r → r ≢ out_of_fuel
  not_out_of_fuel r (halts p) e = cc
  not_out_of_fuel r faults e = cc

pub alloc-Halts :
    (k : Kernel) (n : ℕ) (w : World) (fd : ℤ) (m : ℕ)
    → m ≤ count_reads fd w.trace
    → Halts (Past fd m) (alloc k n w)
unfolding alloc
alloc-Halts k n w fd m h = elim (Bool-cases (k.grants (malloc n ∷ w.trace))) [
  | inl e ↦ rw e (halts h)
  | inr e ↦ rw e (halts h)
]

pub release-Halts :
    (b : ℕ) (w : World) (fd : ℤ) (m : ℕ)
    → m ≤ count_reads fd w.trace
    → Halts (Past fd m) (release b w)
unfolding release
release-Halts b w fd m h = elim (Bool-cases (w.live b)) [
  | inl e ↦ rw e (halts h)
  | inr e ↦ rw e faults
]

pub Halts-mono :
    {A : Type 0} {P Q : A → World → Type 0} {r : Run A}
    → Halts P r
    → ((a : A) (w : World) → P a w → Q a w)
    → Halts Q r
Halts-mono (halts p) weaken = halts (weaken _ _ p)
Halts-mono faults weaken = faults

-- No claim on the result.
abbrev pub Any : {A : Type 0} → A → World → Type 0
Any a w = Unit

module _ {A : Type 0} where
  pub if-Halts :
      (b : Bool) (c d : Cmd A) (w : World)
      → Halts Any (c w)
      → Halts Any (d w)
      → Halts Any ((if b then c else d) w)
  if-Halts true c d w h g = h
  if-Halts false c d w h g = g

pub when-Halts :
    (b : Bool) (c : Cmd (Unit {0})) (w : World) → Halts Any (c w) → Halts Any (when b c w)
when-Halts true c w h = h
when-Halts false c w h = halts tt

pub release-Any : (b : ℕ) (w : World) → Halts Any (release b w)
release-Any b w = Halts-mono (release-Halts b w (pos 0) 0 (omega arith)) λ _ v h. tt

pub option_cases : {A : Type 0} (o : Option A) → (o ≡ none) ⊎ ((a : A) × (o ≡ some a))
option_cases none = inl refl
option_cases (some a) = inr (a, refl)
