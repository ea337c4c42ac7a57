-- ===== src/Machine/Since.antt =====
-- What is added to a history: any calls, but reads of one descriptor at most.
use sculpt.Base.{
  ◌≡◌, refl, false, Option, none, some, [], ◌∷◌, ◌++◌, Bytes, ℤ, ◌==ℤ◌, ◌∙◌, ap, arith,
}
use sculpt.Machine.{Call, Trace, read}
use sculpt.Machine.Reads.{count_reads, reads}

-- May the descriptor be read?
abbrev pub Reader : Option ℤ → ℤ → Type 0
Reader none g = ⊥
Reader (some fd) g = g ≡ fd

abbrev pub Only : Option ℤ → Call → Type 0
Only r (read g) = Reader r g
Only r _ = Unit

pub data Since (r : Option ℤ) (t : Trace) : Trace → Type 0 where
  now : Since r t t
  later : {c : Call} {s : Trace} → Only r c → Since r t s → Since r t (c ∷ s)

pub Since-trans : {r : Option ℤ} {t s u : Trace} → Since r t s → Since r s u → Since r t u
Since-trans h now = h
Since-trans h (later o k) = later o (Since-trans h k)

-- The added calls.
pub Since-more : {r : Option ℤ} {t s : Trace} → Since r t s → (more : Trace) × (s ≡ more ++ t)
Since-more now = ([], refl)
Since-more (later {c} o h) = let (more, e) = Since-more h in (c ∷ more, ap (λ x. c ∷ x) e)

-- Calls that read nothing are allowed where one descriptor may be read.
pub Since-some : (fd : ℤ) {t s : Trace} → Since none t s → Since (some fd) t s
Since-some fd now = now
Since-some fd (later {c} o h) = later (weaker c o) (Since-some fd h)
  where
    weaker : (c : Call) → Only none c → Only (some fd) c
    weaker (read g) o = absurd o
    weaker _ o = tt

-- A descriptor that may not be read has been read no more often.
pub Since-quiet :
    (fd g : ℤ) {t s : Trace}
    → (g ==ℤ fd) ≡ false
    → Since (some fd) t s
    → count_reads g s ≡ count_reads g t
Since-quiet fd g e now = refl
Since-quiet fd g e (later {c} {s} o h) = other c s o ∙ Since-quiet fd g e h
  where
    other : (c : Call) (s : Trace) → Only (some fd) c → count_reads g (c ∷ s) ≡ count_reads g s
    other (read n) s o = ground (arith, e, o)
    other _ s o = refl

-- Nothing was read.
pub Since-none : (g : ℤ) {t s : Trace} → Since none t s → count_reads g s ≡ count_reads g t
Since-none g now = refl
Since-none g (later {c} {s} o h) = other c s o ∙ Since-none g h
  where
    other : (c : Call) (s : Trace) → Only none c → count_reads g (c ∷ s) ≡ count_reads g s
    other (read n) s o = absurd o
    other _ s o = refl

pub Since-reads : (fd : ℤ) (s : Bytes) (t : Trace) → Since (some fd) t (reads fd s t)
unfolding reads
Since-reads fd [] t = now
Since-reads fd (c ∷ s) t = Since-trans (later refl now) (Since-reads fd s (read fd ∷ t))
