-- ===== src/Message/Overflow.antt =====
-- Methods and URIs that are too long: refused, but for the one length that fills its array.
use sculpt.Base.{
  ℕ, ◌≡◌, ◌<◌, refl, true, false, Option, none, ◌∷◌, ◌++◌, Bytes, length, arith, All-append, ltb,
  ◌==◌, ◌||◌,
}
use sculpt.Machine.{at, World, Kernel, ok, fault}
use sculpt.Text.{IsText, Lacks, c_string-append, strchr-append, strchr-none}
use sculpt.Code.{buffer_overflow_err, malformed_header_err}
use sculpt.Message.{space, method_buf_size, terminated, find_method, get_http_msg}

terminated-none : (size : ℕ) (a : Bytes) → length a ≡ size → terminated size a ≡ none
unfolding terminated
terminated-none size a h = ground arith

-- A request line that begins with `method`.
abbrev pub line_of : Bytes → Bytes → Bytes
line_of method rest = method ++ space ∷ rest

module _ (k : Kernel) (w : World) (b : Option ℕ) (method rest behind : Bytes) where
  IsText-line : IsText method → IsText rest → IsText (line_of method rest)
  IsText-line m t = All-append _ method _ m (ground arith, t)

  -- A method of exactly 16 bytes passes the test of `get_http_msg`, and its NUL is written behind
  -- the end of the 16-byte array: every request line that starts with such a method is a fault.
  pub get_http_msg_overrun :
      IsText method
      → Lacks space method
      → IsText rest
      → length method ≡ method_buf_size
      → get_http_msg k true (at b (line_of method rest ++ 0 ∷ behind)) w ≡ fault
  unfolding get_http_msg find_method
  get_http_msg_overrun m solid t full =
      let passes : (length method == 0 || ltb method_buf_size (length method)) ≡ false =
        rw full refl in
      rw
        (
          c_string-append (line_of method rest) behind (IsText-line m t),
          strchr-append space method rest solid,
          passes,
          terminated-none method_buf_size method full,
          find_method,
        )
        refl

  -- A longer method is refused with SC_BUFFER_OVERFLOW_ERR, and nothing is changed.
  pub get_http_msg_long :
      IsText method
      → Lacks space method
      → IsText rest
      → method_buf_size < length method
      → get_http_msg k true (at b (line_of method rest ++ 0 ∷ behind)) w
        ≡ ok (buffer_overflow_err, none) w
  unfolding get_http_msg find_method
  get_http_msg_long m solid t long =
      let refused : (length method == 0 || ltb method_buf_size (length method)) ≡ true =
        ground arith in
      rw
        (
          c_string-append (line_of method rest) behind (IsText-line m t),
          strchr-append space method rest solid,
          refused,
          find_method,
        )
        refl

-- A line with no space is malformed, whatever its length.
pub get_http_msg_malformed :
    (k : Kernel) (w : World) (b : Option ℕ) (line behind : Bytes)
    → IsText line
    → Lacks space line
    → get_http_msg k true (at b (line ++ 0 ∷ behind)) w ≡ ok (malformed_header_err, none) w
unfolding get_http_msg find_method
get_http_msg_malformed k w b line behind t solid =
    rw (c_string-append line behind t, strchr-none space line solid, find_method) refl
