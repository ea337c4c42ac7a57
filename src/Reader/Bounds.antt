-- ===== src/Reader/Bounds.antt =====
-- `next_header` against every kernel: it ends and stays within its buffer.
use sculpt.Base.{
  ℕ, zero, suc, ◌+◌, ◌≡◌, ◌≤◌, ◌<◌, refl, ◌&&◌, [], ◌∷◌, ◌++◌, Bytes, length, length-append, ◌==◌,
  ℤ, Bool-cases, inl, inr, arith, ◌⊎◌,
}
use sculpt.Machine.{Kernel, World, Reading, byte, eof, failed, read, log}
use sculpt.Machine.Returns.{Returns, returns, Returns-mono}
use sculpt.Accept.{would_block}
use sculpt.Reader.{cr, lf, drop_last, finish_line, at_eof, read_loop, next_header}

pub Reading-cases : (r : Reading) → ((c : ℕ) × (r ≡ byte c)) ⊎ ((r ≡ failed) ⊎ (r ≡ eof))
Reading-cases (byte c) = inl (c, refl)
Reading-cases failed = inr (inl refl)
Reading-cases eof = inr (inr refl)

length-drop_last : (s : Bytes) → length (drop_last s) ≤ length s
unfolding drop_last
length-drop_last [] = omega arith
length-drop_last (c ∷ []) = omega arith
length-drop_last (c ∷ (d ∷ s)) = omega (arith, length-drop_last (d ∷ s))

finish_line-line : (s : Bytes) → (finish_line s).1 ≡ s
unfolding finish_line
finish_line-line [] = refl
finish_line-line (c ∷ s) = ground arith

at_eof-line : (s : Bytes) → (at_eof s).1 ≡ s
unfolding at_eof
at_eof-line [] = refl
at_eof-line (c ∷ s) = refl

module _ (k : Kernel) (fd : ℤ) where
  read_loop-Bounded :
      (room : ℕ) (line : Bytes) (last : ℕ) (w : World)
      → Returns (λ r v. length r.1 ≤ length line + room) (read_loop k fd room line last w)
  unfolding read_loop
  read_loop-Bounded zero line last w = returns (omega arith)
  read_loop-Bounded (suc room) line last w = elim (Reading-cases (k.reading (read fd ∷ w.trace))) [
    | inl (c, e) ↦ rw e (elim (Bool-cases (last == cr && c == lf)) [
      | inl f ↦
          rw f (
            returns (rw (finish_line-line (drop_last line)) (omega (arith, length-drop_last line))))
      | inr f ↦ rw f (
          Returns-mono (read_loop-Bounded room (line ++ c ∷ []) c (log (read fd) w))
            λ r v le. omega (arith, le, length-append line (c ∷ [])))
    ])
    | inr (inl e) ↦ rw e (elim (Bool-cases (would_block (k.errno (read fd ∷ w.trace)))) [
      | inl f ↦ rw f (returns (rw (finish_line-line line) (omega arith)))
      | inr f ↦ rw f (returns (omega arith))
    ])
    | inr (inr e) ↦ rw e (returns (rw (at_eof-line line) (omega arith)))
  ]

  -- Whatever the client sends, `next_header` with a buffer of at least one byte ends without a
  -- fault, and the bytes that it stores leave room for their NUL in the buffer.
  pub next_header-Bounded :
      (n : ℕ) (w : World) → Returns (λ r v. length r.1 < suc n) (next_header k fd (suc n) w)
  unfolding next_header
  next_header-Bounded n w = Returns-mono (read_loop-Bounded n [] 0 w) λ r v le. omega (arith, le)
