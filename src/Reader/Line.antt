-- ===== src/Reader/Line.antt =====
-- `next_header` against a client that sends a line.
use sculpt.Machine.{failed, Trace}
use sculpt.Accept.{would_block}
use sculpt.Code.{read_err}
use sculpt.Machine.Reads.{count_reads, count_reads-read, Sends, reads, Sends-append}
use sculpt.Base.{
  Bool, true, ◌≤◌, append-nil, append_assoc, ℕ, zero, suc, ◌+◌, ◌≡◌, ◌<◌, refl, false, [], ◌∷◌,
  ◌++◌, Bytes, length, ◌==◌, ℤ, has, arith, if◌then◌else◌, ap, ◌∙◌,
}
use sculpt.Machine.{Kernel, World, read, ok, log}
use sculpt.Code.{ok_code, finished, buffer_overflow_err}
use sculpt.Reader.{cr, lf, drop_last, finish_line, read_loop, next_header}

drop_last-append : (s : Bytes) (c : ℕ) → drop_last (s ++ c ∷ []) ≡ s
unfolding drop_last
drop_last-append [] c = refl
drop_last-append (d ∷ []) c = refl
drop_last-append (d ∷ (e ∷ s)) c = ap (◌∷◌ d) (drop_last-append (e ∷ s) c)

module _ (k : Kernel) (fd : ℤ) where
  -- A loop that has not met a CR yet.
  read_loop-line :
      (s line : Bytes) (room last : ℕ) (w : World)
      → has cr s ≡ false
      → (last == cr) ≡ false
      → length s + 1 < room
      → Sends k fd w.trace (s ++ cr ∷ lf ∷ [])
      → read_loop k fd room line last w
        ≡ ok (finish_line (line ++ s)) (record w { trace = reads fd (s ++ cr ∷ lf ∷ []) w.trace })
  unfolding read_loop reads
  read_loop-line [] line zero last w plain start fits _ = elim fits [ ]
  read_loop-line [] line (suc (suc room)) last w plain start fits (e, (f, _)) =
      rw (e, start, f, drop_last-append line cr, append-nil line) refl
  read_loop-line [] line (suc zero) last w plain start fits _ = absurd (omega (arith, fits))
  read_loop-line (c ∷ s) line zero last w plain start fits _ = elim fits [ ]
  read_loop-line (c ∷ s) line (suc room) last w plain start fits (e, rest) =
      rw (e, start)
        (read_loop-line s (line ++ c ∷ []) room c (log (read fd) w) (ground (arith, plain))
            (ground (arith, plain)) (omega (arith, fits)) rest
          ∙ ap
              (λ l.
                ok (finish_line l)
                  (record w { trace = reads fd (s ++ cr ∷ lf ∷ []) (read fd ∷ w.trace) }))
              (append_assoc line (c ∷ []) s))

  -- A loop whose room is used up before a CR.
  read_loop-overflow :
      (s line : Bytes) (last : ℕ) (w : World)
      → has cr s ≡ false
      → (last == cr) ≡ false
      → Sends k fd w.trace s
      → read_loop k fd (length s) line last w
        ≡ ok (buffer_overflow_err, line ++ s) (record w { trace = reads fd s w.trace })
  unfolding read_loop reads
  read_loop-overflow [] line last w plain start _ = rw (append-nil line) refl
  read_loop-overflow (c ∷ s) line last w plain start (e, rest) =
      rw (e, start)
        (read_loop-overflow s (line ++ c ∷ []) c (log (read fd) w) (ground (arith, plain))
            (ground (arith, plain)) rest
          ∙ ap
              (λ l.
                ok (buffer_overflow_err, l) (record w { trace = reads fd s (read fd ∷ w.trace) }))
              (append_assoc line (c ∷ []) s))

finish_line-text :
    (s : Bytes) → has 0 s ≡ false → finish_line s ≡ (if length s == 0 then finished else ok_code, s)
unfolding finish_line
finish_line-text [] text = refl
finish_line-text (c ∷ s) text = ground (arith, text)

module _ (k : Kernel) (fd : ℤ) (w : World) where
  -- Where a client sends a line without CR or NUL, a CR LF and more, and the line, a CR and one byte fit into
  -- the buffer: `next_header` stores the line, with SC_FINISHED if it is empty and SC_OK otherwise, reads
  -- its bytes and the CR LF and does nothing else, and the rest is what the client sends next.
  pub next_header-line :
      (s rest : Bytes) (buf_len : ℕ)
      → has cr s ≡ false
      → has 0 s ≡ false
      → length s + 2 < buf_len
      → Sends k fd w.trace (s ++ cr ∷ lf ∷ [] ++ rest)
      → let t = reads fd (s ++ cr ∷ lf ∷ []) w.trace in
        (next_header k fd buf_len w
          ≡ ok (if length s == 0 then finished else ok_code, s) (record w { trace = t }))
        × Sends k fd t rest
  unfolding next_header
  next_header-line s rest (suc n) plain text fits sends =
      let split : Sends k fd w.trace (s ++ cr ∷ lf ∷ [])
          × Sends k fd (reads fd (s ++ cr ∷ lf ∷ []) w.trace) rest =
        Sends-append k fd w.trace (s ++ cr ∷ lf ∷ []) rest sends in
      (
        read_loop-line k fd s [] n 0 w plain refl (omega (arith, fits)) split.0
            ∙ ap (λ r. ok r (record w { trace = reads fd (s ++ cr ∷ lf ∷ []) w.trace }))
                (finish_line-text s text),
        split.1,
      )
  next_header-line s rest zero plain text fits sends = absurd (omega (arith, fits))

  -- Where a client sends as many bytes without CR as the buffer holds beside the NUL, `next_header` stores
  -- all of them, reads no more, and returns SC_BUFFER_OVERFLOW_ERR.
  next_header-overflow :
      (s : Bytes)
      → has cr s ≡ false
      → Sends k fd w.trace s
      → next_header k fd (suc (length s)) w
        ≡ ok (buffer_overflow_err, s) (record w { trace = reads fd s w.trace })
  unfolding next_header
  next_header-overflow s plain sends = read_loop-overflow k fd s [] 0 w plain refl sends

-- A read that fails, and not because it would block, ends the line.
pub next_header-failed :
    (k : Kernel) (fd : ℤ) (n : ℕ) (w : World)
    → k.reading (read fd ∷ w.trace) ≡ failed
    → would_block (k.errno (read fd ∷ w.trace)) ≡ false
    → next_header k fd (suc (suc n)) w ≡ ok (read_err, []) (log (read fd) w)
unfolding next_header read_loop
next_header-failed k fd n w bad hard = rw (bad, hard) refl

-- From its read number `n` on, every read of the descriptor fails, because it would block or for another reason.
abbrev pub Stops : Kernel → ℤ → (blocked : Bool) → ℕ → Type 0
Stops k fd blocked n =
    (t : Trace)
    → n ≤ count_reads fd t
    → (k.reading (read fd ∷ t) ≡ failed) × (would_block (k.errno (read fd ∷ t)) ≡ blocked)

module _ (k : Kernel) (fd : ℤ) (n : ℕ) (stops : Stops k fd true n) where
  read_loop-paused :
      (s line : Bytes) (room last : ℕ) (w : World)
      → has cr s ≡ false
      → (last == cr) ≡ false
      → length s < room
      → Sends k fd w.trace s
      → n ≤ count_reads fd w.trace + length s
      → read_loop k fd room line last w
        ≡ ok (finish_line (line ++ s)) (record w { trace = read fd ∷ reads fd s w.trace })
  unfolding read_loop reads
  read_loop-paused [] line zero last w plain start fits _ past = absurd (omega (arith, fits))
  read_loop-paused [] line (suc room) last w plain start fits _ past =
      let (bad, blocked) = stops w.trace (omega (arith, past)) in
      rw (bad, blocked, append-nil line) refl
  read_loop-paused (c ∷ s) line zero last w plain start fits _ past = absurd (omega (arith, fits))
  read_loop-paused (c ∷ s) line (suc room) last w plain start fits (e, rest) past =
      rw (e, start)
        (read_loop-paused s (line ++ c ∷ []) room c (log (read fd) w) (ground (arith, plain))
            (ground (arith, plain)) (omega (arith, fits)) rest
            (omega (arith, past, count_reads-read fd w.trace))
          ∙ ap
              (λ l.
                ok (finish_line l) (record w { trace = read fd ∷ reads fd s (read fd ∷ w.trace) }))
              (append_assoc line (c ∷ []) s))

  -- A client that pauses: what has come of the line is taken for all of it, and nothing for the end of the headers.
  pub next_header-paused :
      (s : Bytes) (buf_len : ℕ) (w : World)
      → has cr s ≡ false
      → has 0 s ≡ false
      → length s + 1 < buf_len
      → Sends k fd w.trace s
      → n ≤ count_reads fd w.trace + length s
      → next_header k fd buf_len w
        ≡ ok
            (if length s == 0 then finished else ok_code, s)
            (record w { trace = read fd ∷ reads fd s w.trace })
  unfolding next_header
  next_header-paused s zero w plain text fits sends past = absurd (omega (arith, fits))
  next_header-paused s (suc m) w plain text fits sends past =
      read_loop-paused s [] m 0 w plain refl (omega (arith, fits)) sends past
      ∙ ap (λ r. ok r (record w { trace = read fd ∷ reads fd s w.trace })) (finish_line-text s text)
