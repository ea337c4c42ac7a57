-- ===== src/Headers.antt =====
-- src/sculpt_header.c: the list of header lines. NULL is the empty list.
pub mod Free
pub mod Append
pub mod Halts
use sculpt.Base.{
  ℕ, Bool, true, false, Option, none, some, List, [], ◌∷◌, ◌++◌, ◌+◌, ◌%◌, ◌^◌, Bytes, length,
  if◌then◌else◌,
}
use sculpt.Machine.{Buffer, null, at, Str, Header, Kernel, Cmd, pure, crash, need, ◌>>=◌, ◌>>◌}
use sculpt.Machine.Heap.{alloc, release}
use sculpt.Str.{readable, str_copy, str_free}
use sculpt.Text.{crlf, c_string, strstr}

-- The size of `sc_headers`.
abbrev node_size : ℕ
node_size = 24

abbrev is_null : Buffer → Bool
is_null null = true
is_null _ = false

-- A node in block `b` with a copy of the text. A copy without a buffer would be freed through a
-- `next` pointer that was never set.
fill_node : Kernel → Buffer → List Header → Option ℕ → Cmd (List Header)
fill_node k text next none = pure []
fill_node k text next (some b) = do
  s ← str_copy k text
  if is_null s.buf then crash else pure (record { block = b; header = s } ∷ next)

-- `_create_header`
create_header : Kernel → Buffer → List Header → Cmd (List Header)
unfolding fill_node
create_header k text next = do r ← alloc k node_size; fill_node k text next r

-- The line with CR LF in the block `b` of `length s + 3` bytes, which is freed after its copy is made.
append_crlf : Kernel → Bytes → List Header → Option ℕ → Cmd (List Header)
append_crlf k s list none = pure []
append_crlf k s list (some b) = do
  res ← create_header k (at (some b) (s ++ crlf ++ 0 ∷ [])) list
  release b
  pure res

-- `sc_header_append`
pub header_append : Kernel → Buffer → List Header → Cmd (List Header)
unfolding create_header append_crlf
header_append k text list = do
  s ← need (c_string (readable text))
  if strstr crlf s
      then create_header k text list
      else do r ← alloc k ((length s + 3) % 2 ^ 64); append_crlf k s list r

-- `sc_headers_free`
pub headers_free : List Header → Cmd (Unit {0})
headers_free [] = pure tt
headers_free (h ∷ hs) = do str_free h.header; release h.block; headers_free hs

-- `sc_header_free`: one node, and not those behind it.
pub header_free : List Header → Cmd (Unit {0})
header_free [] = pure tt
header_free (h ∷ hs) = do str_free h.header; release h.block
