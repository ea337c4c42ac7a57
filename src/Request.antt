-- ===== src/Request.antt =====
-- `parse_all_headers` of src/sculpt_conn.c: the request line and the headers of a connection.
pub mod Wire
pub mod Loaded
pub mod Loop
pub mod Received
pub mod Errors
pub mod Broken
pub mod Paused
pub mod Arrives
pub mod Halts
use sculpt.Base.{
  ℕ, zero, suc, Bool, true, false, ◌||◌, Option, none, some, List, [], ◌∷◌, ◌++◌, Bytes, codes, leb,
  if◌then◌else◌, ℤ,
}
use sculpt.Machine.{Kernel, Cmd, HttpMsg, Header, at, pure, need, ◌>>=◌, ◌>>◌, out_of_fuel}
use sculpt.Code.{Code, ok_code, finished, header_parse_err}
use sculpt.Text.{c_string, strstr}
use sculpt.Pool.{load_conn}
use sculpt.Accept.{cleanup_after_error}
use sculpt.Headers.{header_append}
use sculpt.Message.{get_http_msg}
use sculpt.Reader.{next_header, header_buf_size}

-- `SC_MAX_HEADER_ERROR_COUNT`
abbrev pub max_header_error_count : ℕ
max_header_error_count = 12

-- The returned code, `*headers`, `*http_msg` and `*keep_alive`.
pub record Request : Type 0 where
  pub code : Code
  pub headers : List Header
  pub http_msg : HttpMsg
  pub keep_alive : Bool

-- A header's line, in the buffer with its NUL, goes to the front of the list.
pub keep_line : Kernel → Bytes → Request → Cmd Request
keep_line k line q = do
  text ← need (c_string (line ++ 0 ∷ []))
  hs ← header_append k (at none (line ++ 0 ∷ [])) q.headers
  pure (record q {
    headers = hs;
    keep_alive = q.keep_alive || strstr (codes "Connection: keep-alive") text;
  })

-- The loop over the headers, on fuel, with its count of errors in a row.
pub header_loop : Kernel → ℤ → (fuel : ℕ) → (error_count : ℕ) → Request → Cmd Request
unfolding keep_line
header_loop k fd zero error_count q = λ w. out_of_fuel
header_loop k fd (suc fuel) error_count q =
    if leb max_header_error_count error_count
    then pure (record q { code = header_parse_err })
    else do
      (err, line) ← next_header k fd header_buf_size
      elim err [
        | finished ↦ pure (record q { code = ok_code })
        | ok_code ↦ do q' ← keep_line k line q; header_loop k fd fuel 0 q'
        | _ ↦ header_loop k fd fuel (suc error_count) q
      ]

-- The connection's slot is given up, and the request with it.
give_up : Kernel → ℕ → Request → Cmd Request
give_up k i q = do cleanup_after_error k (some i); pure (record q { code = header_parse_err })

-- The request line is in the buffer: what stands behind its NUL is not read.
parse_line : Kernel → (fuel : ℕ) → ℕ → ℤ → Bytes → Request → Cmd Request
unfolding give_up header_loop
parse_line k fuel i fd line q = do
  (err, msg) ← get_http_msg k true (at none (line ++ 0 ∷ []))
  elim msg [
    | none ↦ give_up k i q
    | some m ↦ header_loop k fd fuel 0 (record q { http_msg = m; headers = [] })
  ]

-- `parse_all_headers` of the connection in slot `i`, from what the caller's variables hold.
pub parse_all_headers : Kernel → (fuel : ℕ) → ℕ → Request → Cmd Request
unfolding parse_line
parse_all_headers k fuel i q = do
  c ← load_conn i
  (err, line) ← next_header k c.fd header_buf_size
  elim err [
    | ok_code ↦ parse_line k fuel i c.fd line q
    | finished ↦ parse_line k fuel i c.fd line q
    | _ ↦ give_up k i q
  ]
