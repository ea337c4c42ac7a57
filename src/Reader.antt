-- ===== src/Reader.antt =====
-- `next_header` of src/sculpt_conn.c: one line, read byte by byte.
pub mod Bounds
pub mod Halts
pub mod Line
use sculpt.Base.{
  ℕ, zero, suc, ◌-◌, Bool, true, false, ◌&&◌, [], ◌∷◌, ◌++◌, Bytes, ◌==◌, if◌then◌else◌, ℤ,
}
use sculpt.Machine.{
  Kernel, Cmd, Reading, byte, eof, failed, pure, crash, ◌>>=◌, ◌>>◌, log, read, ok, get_errno,
}
use sculpt.Accept.{would_block}
use sculpt.Code.{Code, ok_code, finished, buffer_overflow_err, read_err}

abbrev pub cr : ℕ
cr = 13

abbrev pub lf : ℕ
lf = 10

-- `HEADER_BUF_SIZE`
abbrev pub header_buf_size : ℕ
header_buf_size = 1024

-- The code, and the bytes in the buffer before the NUL that is written behind them.
abbrev pub LineRead : Type 0
LineRead = Code × Bytes

-- `read(fd, …, 1)`
abbrev read_byte : Kernel → ℤ → Cmd Reading
read_byte k fd w = ok (k.reading (read fd ∷ w.trace)) (log (read fd) w)

drop_last : Bytes → Bytes
drop_last [] = []
drop_last (c ∷ []) = []
drop_last (c ∷ (d ∷ s)) = c ∷ drop_last (d ∷ s)

-- The test behind the loop: an empty line ends the headers.
finish_line : Bytes → LineRead
finish_line [] = (finished, [])
finish_line (c ∷ s) = if c == 0 then (finished, c ∷ s) else (ok_code, c ∷ s)

-- The end of the input.
at_eof : Bytes → LineRead
at_eof [] = (finished, [])
at_eof (c ∷ s) = (ok_code, c ∷ s)

-- The loop. `room` is `buf_len - 1 - header_len`, `line` holds the first `header_len` bytes of the
-- buffer and `last` is `last_char`.
read_loop : Kernel → ℤ → (room : ℕ) → (line : Bytes) → (last : ℕ) → Cmd LineRead
read_loop k fd zero line last = pure (buffer_overflow_err, line)
read_loop k fd (suc room) line last = do
  r ← read_byte k fd
  elim r [
    | byte c ↦
        let more = read_loop k fd room (line ++ c ∷ []) c in
        if last == cr && c == lf then pure (finish_line (drop_last line)) else more
    | failed ↦ do
      e ← get_errno k
      pure (if would_block e then finish_line line else (read_err, line))
    | eof ↦ pure (at_eof line)
  ]

-- `next_header` with a buffer of `buf_len` bytes.
pub next_header : Kernel → ℤ → (buf_len : ℕ) → Cmd LineRead
unfolding read_loop
next_header k fd zero = crash
next_header k fd (suc n) = read_loop k fd n [] 0
