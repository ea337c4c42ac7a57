-- ===== src/Reader/Halts.antt =====
-- `next_header` always ends, and reads at least once.
use sculpt.Base.{
  ℕ, zero, suc, ◌+◌, ◌≡◌, ◌≢◌, ◌≤◌, ◌<◌, refl, ◌&&◌, [], ◌∷◌, ◌++◌, Bytes, ℤ, ◌==◌, ◌⊎◌, inl, inr,
  leb, arith, Bool-cases, if◌then◌else◌,
}
use sculpt.Machine.{Kernel, World, Trace, Reading, byte, eof, failed, read, log}
use sculpt.Machine.Reads.{count_reads, count_reads-read}
use sculpt.Machine.Halts.{Halts, halts, Halts-mono}
use sculpt.Accept.{would_block}
use sculpt.Code.{Code, ok_code, finished, buffer_overflow_err, read_err}
use sculpt.Reader.{LineRead, cr, lf, drop_last, finish_line, at_eof, read_loop, next_header}

-- The codes of `next_header`.
abbrev pub IsLineCode : Code → Type 0
IsLineCode e = (e ≡ finished) ⊎ (e ≡ ok_code) ⊎ (e ≡ buffer_overflow_err) ⊎ (e ≡ read_err)

reading_cases : (r : Reading) → ((c : ℕ) × (r ≡ byte c)) ⊎ (r ≡ eof) ⊎ (r ≡ failed)
reading_cases (byte c) = inl (c, refl)
reading_cases eof = inr (inl refl)
reading_cases failed = inr (inr refl)

finish_line-IsLineCode : (s : Bytes) → IsLineCode (finish_line s).0
unfolding finish_line
finish_line-IsLineCode [] = inl refl
finish_line-IsLineCode (c ∷ s) = elim (Bool-cases (c == 0)) [
  | inl e ↦ rw e (inl refl)
  | inr e ↦ rw e (inr (inl refl))
]

at_eof-IsLineCode : (s : Bytes) → IsLineCode (at_eof s).0
unfolding at_eof
at_eof-IsLineCode [] = inl refl
at_eof-IsLineCode (c ∷ s) = inr (inl refl)

-- The client sends nothing from its read number `n` on: the connection ends, fails or would block.
abbrev pub Finite : Kernel → ℤ → ℕ → Type 0
Finite k fd n = (t : Trace) → n ≤ count_reads fd t → (c : ℕ) → k.reading (read fd ∷ t) ≢ byte c

module _ (k : Kernel) (fd : ℤ) where
  abbrev AfterReads : ℕ → LineRead → World → Type 0
  AfterReads n r v = IsLineCode r.0 × (n ≤ count_reads fd v.trace)

  read_loop-Halts :
      (room : ℕ) (line : Bytes) (last : ℕ) (w : World)
      → Halts
          (AfterReads (count_reads fd w.trace + (if room == 0 then 0 else 1)))
          (read_loop k fd room line last w)
  unfolding read_loop
  read_loop-Halts zero line last w = halts (inr (inr (inl refl)), omega arith)
  read_loop-Halts (suc room) line last w =
      let once = count_reads-read fd w.trace in
      elim (reading_cases (k.reading (read fd ∷ w.trace))) [
        | inl (c, e) ↦ rw e (elim (Bool-cases (last == cr && c == lf)) [
          | inl t ↦ rw t (halts (finish_line-IsLineCode (drop_last line), ground (arith, once)))
          | inr t ↦ rw t (
              Halts-mono (read_loop-Halts room (line ++ c ∷ []) c (log (read fd) w))
                λ r v (code, more). (code, ground (arith, once, more)))
        ])
        | inr (inl e) ↦ rw e (halts (at_eof-IsLineCode line, ground (arith, once)))
        | inr (inr e) ↦ rw e (elim (Bool-cases (would_block (k.errno (read fd ∷ w.trace)))) [
          | inl b ↦ rw b (halts (finish_line-IsLineCode line, ground (arith, once)))
          | inr b ↦ rw b (halts (inr (inr (inr refl)), ground (arith, once)))
        ])
      ]

  -- Where the client sends nothing any more, the line is empty.
  next_header-silent :
      (n m : ℕ) (w : World)
      → Finite k fd n
      → n ≤ count_reads fd w.trace
      → Halts
          (λ r v.
            ((r.0 ≡ finished) ⊎ (r.0 ≡ read_err))
            × (count_reads fd w.trace < count_reads fd v.trace))
          (next_header k fd (suc (suc m)) w)
  unfolding next_header read_loop at_eof finish_line
  next_header-silent n m w finite past =
      let once : count_reads fd w.trace < count_reads fd (read fd ∷ w.trace) =
        omega (arith, count_reads-read fd w.trace) in
      elim (reading_cases (k.reading (read fd ∷ w.trace))) [
        | inl (c, e) ↦ absurd (finite w.trace past c e)
        | inr (inl e) ↦ rw e (halts (inl refl, once))
        | inr (inr e) ↦ rw e (elim (Bool-cases (would_block (k.errno (read fd ∷ w.trace)))) [
          | inl b ↦ rw b (halts (inl refl, once))
          | inr b ↦ rw b (halts (inr refl, once))
        ])
      ]

  -- What the code tells of a client that sends at most `n` bytes in all.
  abbrev pub Told : ℕ → ℕ → Code → Type 0
  Told n start e =
      (e ≡ finished)
      ⊎ ((e ≡ ok_code) × (start < n))
      ⊎ ((e ≡ buffer_overflow_err) × (start < n))
      ⊎ (e ≡ read_err)

  pub next_header-Halts :
      (n m : ℕ) (w : World)
      → Finite k fd n
      → Halts
          (λ r v.
            Told n (count_reads fd w.trace) r.0 × (count_reads fd w.trace < count_reads fd v.trace))
          (next_header k fd (suc (suc m)) w)
  unfolding next_header
  next_header-Halts n m w finite = elim (Bool-cases (leb n (count_reads fd w.trace))) [
    | inl past ↦
        Halts-mono (next_header-silent n m w finite (ground (arith, past)))
          λ r v (code, more). (elim code [ inl e ↦ inl e | inr e ↦ inr (inr (inr e)) ], more)
    | inr before ↦
        let start : count_reads fd w.trace < n = ground (arith, before) in
        Halts-mono (read_loop-Halts (suc m) [] 0 w) λ r v (code, more). (
          elim code [
            | inl e ↦ inl e
            | inr (inl e) ↦ inr (inl (e, start))
            | inr (inr (inl e)) ↦ inr (inr (inl (e, start)))
            | inr (inr (inr e)) ↦ inr (inr (inr e))
          ],
          ground (arith, more),
        )
  ]
