-- ===== src/Machine/Reads.antt =====
-- The reads of a descriptor in a history, and a client that sends bytes whatever else is called.
use sculpt.Base.{ℕ, suc, ◌+◌, ◌≡◌, [], ◌∷◌, ◌++◌, Bytes, length, ℤ, ◌==ℤ◌, if◌then◌else◌, arith}
use sculpt.Machine.{Kernel, Trace, byte, read}

-- The bytes are the answers to the reads that follow the calls `t`.
abbrev pub Sends : Kernel → ℤ → Trace → Bytes → Type 0
Sends k fd t [] = Unit
Sends k fd t (c ∷ s) = (k.reading (read fd ∷ t) ≡ byte c) × Sends k fd (read fd ∷ t) s

-- One read for each byte, in front of the calls `t`.
unfoldable pub reads : ℤ → Bytes → Trace → Trace
reads fd [] t = t
reads fd (c ∷ s) t = reads fd s (read fd ∷ t)

abbrev pub count_reads : ℤ → Trace → ℕ
count_reads fd [] = 0
count_reads fd (read g ∷ t) = (if g ==ℤ fd then 1 else 0) + count_reads fd t
count_reads fd (_ ∷ t) = count_reads fd t

-- From its read number `n` on, the descriptor gives the bytes, whatever calls stand between the reads.
abbrev pub Feeds : Kernel → ℤ → ℕ → Bytes → Type 0
Feeds k fd n [] = Unit
Feeds k fd n (c ∷ s) =
    ((t : Trace) → count_reads fd t ≡ n → k.reading (read fd ∷ t) ≡ byte c) × Feeds k fd (suc n) s

pub count_reads-read : (fd : ℤ) (t : Trace) → count_reads fd (read fd ∷ t) ≡ suc (count_reads fd t)
count_reads-read fd t = ground arith

pub count_reads-reads :
    (fd : ℤ) (s : Bytes) (t : Trace) → count_reads fd (reads fd s t) ≡ count_reads fd t + length s
unfolding reads
count_reads-reads fd [] t = omega arith
count_reads-reads fd (c ∷ s) t =
    omega (arith, count_reads-reads fd s (read fd ∷ t), count_reads-read fd t)

module _ (k : Kernel) (fd : ℤ) where
  pub Feeds-Sends :
      (s : Bytes) (n : ℕ) (t : Trace) → count_reads fd t ≡ n → Feeds k fd n s → Sends k fd t s
  Feeds-Sends [] n t e h = tt
  Feeds-Sends (c ∷ s) n t e (f, h) =
      (f t e, Feeds-Sends s (suc n) (read fd ∷ t) (omega (arith, count_reads-read fd t)) h)

  pub Feeds-append :
      (a b : Bytes) (n m : ℕ)
      → n + length a ≡ m
      → Feeds k fd n (a ++ b)
      → Feeds k fd n a × Feeds k fd m b
  Feeds-append [] b n m e h = let same : n ≡ m = omega arith in (tt, rw (← same) h)
  Feeds-append (c ∷ a) b n m e (f, h) =
      let rest = Feeds-append a b (suc n) m (omega arith) h in ((f, rest.0), rest.1)

  pub Sends-append :
      (t : Trace) (s u : Bytes)
      → Sends k fd t (s ++ u)
      → Sends k fd t s × Sends k fd (reads fd s t) u
  unfolding reads
  Sends-append t [] u h = (tt, h)
  Sends-append t (c ∷ s) u (e, h) =
      let rest = Sends-append (read fd ∷ t) s u h in ((e, rest.0), rest.1)
