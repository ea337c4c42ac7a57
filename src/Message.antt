-- ===== src/Message.antt =====
-- `get_http_msg` of src/sculpt_conn.c: the method and the URI of a request line.
pub mod RequestLine
pub mod Overflow
pub mod Halts
use sculpt.Base.{
  ℕ, Bool, true, false, ◌||◌, Option, none, some, [], ◌∷◌, ◌++◌, Bytes, length, ltb, ◌==◌,
  if◌then◌else◌,
}
use sculpt.Machine.{Buffer, null, wild, at, HttpMsg, Kernel, Cmd, pure, crash, need, ◌>>=◌}
use sculpt.Str.{str_copy_n}
use sculpt.Text.{c_string, strchr}
use sculpt.Code.{Code, ok_code, bad_arguments_err, malformed_header_err, buffer_overflow_err}

abbrev pub method_buf_size : ℕ
method_buf_size = 16

abbrev pub url_buf_size : ℕ
url_buf_size = 128

abbrev pub space : ℕ
space = 32

-- A copy and its NUL in an array of `size` bytes on the stack: a fault if they do not fit.
terminated : ℕ → Bytes → Option Bytes
terminated size s = if ltb (length s) size then some (s ++ 0 ∷ []) else none

-- `while (*uri_start == ' ') uri_start++`
skip_spaces : Bytes → Bytes
skip_spaces [] = []
skip_spaces (c ∷ s) = let rest = skip_spaces s in if c == space then rest else c ∷ s

-- What the function returns and, on success, the message that it has filled in.
abbrev pub Parsed : Type 0
Parsed = Code × Option HttpMsg

-- The part behind both lengths: the copies of the two arrays.
fill_msg : Kernel → Bytes → Bytes → Cmd Parsed
fill_msg k method uri = do
  uri_buf ← need (terminated url_buf_size uri)
  u ← str_copy_n k (at none uri_buf) (length uri)
  method_buf ← need (terminated method_buf_size method)
  m ← str_copy_n k (at none method_buf) (length method)
  pure (ok_code, some (record { uri = u; method = m }))

-- `rest` is what stands behind the first space.
find_uri : Kernel → Bytes → Bytes → Cmd Parsed
unfolding fill_msg
find_uri k method rest = elim (strchr space (skip_spaces rest)) [
  | none ↦ pure (malformed_header_err, none)
  | some (uri, behind) ↦
      if length uri == 0 || ltb url_buf_size (length uri)
      then pure (buffer_overflow_err, none)
      else fill_msg k method uri
]

-- `space + 1`
abbrev behind_space : Bytes → Bytes
behind_space [] = []
behind_space (c ∷ s) = s

-- The method's array is written before the URI is looked for.
find_method : Kernel → Bytes → Cmd Parsed
unfolding find_uri
find_method k header = elim (strchr space header) [
  | none ↦ pure (malformed_header_err, none)
  | some (method, from_space) ↦
      if length method == 0 || ltb method_buf_size (length method)
      then pure (buffer_overflow_err, none)
      else do
        method_buf ← need (terminated method_buf_size method)
        find_uri k method (behind_space from_space)
]

-- `get_http_msg`; `given` is false for a NULL `http_msg`.
pub get_http_msg : Kernel → (given : Bool) → Buffer → Cmd Parsed
unfolding find_method
get_http_msg k false header = pure (bad_arguments_err, none)
get_http_msg k true null = pure (bad_arguments_err, none)
get_http_msg k true wild = crash
get_http_msg k true (at b s) = do header ← need (c_string s); find_method k header
