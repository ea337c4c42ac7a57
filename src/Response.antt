-- ===== src/Response.antt =====
-- The responses of src/sculpt_util.c: `sc_easy_request_build` and `sc_easy_send`.
pub mod Decimal
pub mod Build
pub mod Send
use sculpt.Base.{
  ℕ, zero, suc, ◌+◌, ◌-◌, ◌/◌, ◌%◌, ◌^◌, Bool, true, false, Option, none, some, List, [], ◌∷◌, ◌++◌,
  Bytes, codes, length, ltb, ◌==◌, if◌then◌else◌, take, map_option, ℤ, pos, negsuc, ◌==ℤ◌,
  minus_one,
}
use sculpt.Machine.{
  Buffer, null, wild, at, Header, Kernel, Cmd, pure, crash, need, system, send, ◌>>=◌, ◌>>◌,
}
use sculpt.Machine.Heap.{alloc, release}
use sculpt.Str.{readable}
use sculpt.Text.{crlf, c_string}
use sculpt.Code.{Code, ok_code, malloc_err, send_err}
use sculpt.Headers.{header_append, headers_free}

-- `%zu`, the digits of a number; the fuel is above it.
decimal_on : ℕ → ℕ → Bytes
decimal_on zero n = []
decimal_on (suc fuel) n =
    let front = decimal_on fuel (n / 10) in
    if ltb n 10 then (48 + n) ∷ [] else front ++ (48 + n % 10) ∷ []

pub decimal : ℕ → Bytes
unfolding decimal_on
decimal n = decimal_on (suc n) n

-- `%d`
pub decimal_ℤ : ℤ → Bytes
decimal_ℤ (pos n) = decimal n
decimal_ℤ (negsuc n) = 45 ∷ decimal (suc n)

-- `http_template` with its arguments.
pub status_line : ℤ → Bytes → ℕ → Bytes
status_line code code_str body_len =
    codes "HTTP/1.1 "
    ++ (decimal_ℤ code
        ++ (codes " "
            ++ (code_str
                ++ (crlf
                    ++ (codes "Content-Length: "
                        ++ (decimal body_len
                            ++ (crlf ++ (codes "Connection: keep-alive" ++ crlf))))))))

-- `strlen(http_template)`, where each of `%d` and `%s` is two characters and `%zu` is three.
abbrev pub template_len : ℕ
template_len = 61

-- The loop that adds up the headers' lengths.
unfoldable pub headers_len : List Header → ℕ
headers_len [] = 0
headers_len (h ∷ hs) = h.header.len + 1 + headers_len hs

-- `response_len`, a `size_t`.
pub response_len : ℕ → ℕ → List Header → ℕ
unfolding headers_len
response_len code_str_len body_len headers =
    (template_len + code_str_len + 3 + 16 + 4 + headers_len headers + body_len) % 2 ^ 64

-- The bytes that `strncat` takes: `n` at most, and none from the NUL on; `none` is a read out of reach.
pub take_string : ℕ → Bytes → Option Bytes
take_string zero s = some []
take_string (suc n) [] = none
take_string (suc n) (c ∷ s) = if c == 0 then some [] else map_option (◌∷◌ c) (take_string n s)

-- Bytes and a NUL behind the string in a buffer of `size` bytes; `none` is a write behind its end.
pub append_to : (size : ℕ) → Bytes → Option Bytes → Option Bytes
append_to size s none = none
append_to size s (some t) = if ltb (length s + length t) size then some (s ++ t) else none

-- The loop that appends the headers.
pub append_headers : (size : ℕ) → List Header → Option Bytes → Option Bytes
unfolding append_to take_string
append_headers size hs none = none
append_headers size [] (some s) = some s
append_headers size (h ∷ hs) (some s) =
    append_headers size hs (append_to size s (take_string h.header.len (readable h.header.buf)))

-- `strcat` or `strncat` of bytes that have been read.
append_bytes : (size : ℕ) → Bytes → Option Bytes → Option Bytes
append_bytes size t none = none
append_bytes size t (some s) = append_to size s (some t)

-- `snprintf` with room for `len` bytes, the NUL among them; with no room it writes nothing, not even a NUL.
print_to : ℕ → Bytes → Option Bytes
print_to zero text = none
print_to (suc n) text = some (take n text)

-- What the buffer of `len + 1` bytes holds up to its NUL.
pub fill_response : (len : ℕ) → ℤ → Bytes → Bytes → List Header → Option Bytes
unfolding status_line print_to append_headers append_bytes
fill_response len code code_str body headers = append_bytes (len + 1) body (
    append_bytes (len + 1) crlf
      (append_headers (len + 1) headers (print_to len (status_line code code_str (length body)))))

build_in : ℤ → Bytes → Bytes → List Header → ℕ → Option ℕ → Cmd Buffer
unfolding fill_response
build_in code code_str body headers len none = pure null
build_in code code_str body headers len (some b) = do
  s ← need (fill_response len code code_str body headers)
  pure (at (some b) (s ++ 0 ∷ []))

-- `sc_easy_request_build`
pub request_build : Kernel → ℤ → Buffer → Buffer → List Header → Cmd Buffer
unfolding build_in response_len
request_build k code code_str body headers = do
  c ← need (c_string (readable code_str))
  b ← need (c_string (readable body))
  let len = response_len (length c) (length b) headers
  r ← alloc k ((len + 1) % 2 ^ 64)
  build_in code c b headers len r

-- `free` of what `malloc` gave.
free_buffer : Buffer → Cmd (Unit {0})
free_buffer null = pure tt
free_buffer wild = crash
free_buffer (at none s) = crash
free_buffer (at (some b) s) = release b

-- From the test of `headers` on.
send_built : Kernel → ℤ → List Header → Buffer → Cmd Code
unfolding free_buffer
send_built k fd [] response = pure malloc_err
send_built k fd (h ∷ hs) response = do
  s ← need (c_string (readable response))
  r ← system k (send fd s)
  if r ==ℤ minus_one
      then pure send_err
      else do free_buffer response; headers_free (h ∷ hs); pure ok_code

-- `sc_easy_send`
pub easy_send : Kernel → ℤ → ℤ → Buffer → Buffer → Buffer → List Header → Cmd Code
unfolding send_built
easy_send k fd code code_str content_type body headers = do
  hs ← header_append k content_type headers
  response ← request_build k code code_str body hs
  send_built k fd hs response
