-- ===== src/Examples/Strings.antt =====
-- Strings and header lists at concrete inputs.
use sculpt.Base.{
  ◌≡◌, refl, true, false, none, some, [], ◌∷◌, ◌++◌, ◌↔◌, Bool, Bytes, ℕ, pos, codes, length, arith,
}
use sculpt.Machine.{at, Str, Header, World, and_then}
use sculpt.Machine.Heap.{mark}
use sculpt.Machine.Returns.{Returns}
use sculpt.Sample.{kernel, world}
use sculpt.Str.{Holds, strcmp, strprefix, str_copy, str_free}
use sculpt.Str.Order.{strcmp-zero_iff}
use sculpt.Str.Prefix.{strprefix_iff}
use sculpt.Str.Copy.{str_free-str_copy}
use sculpt.Text.{crlf, strstr, starts}
use sculpt.Headers.{header_append, headers_free}
use sculpt.Headers.Append.{Appended, line, header_append-Appended}
use sculpt.Headers.Free.{Without, headers_free-Without}

-- A literal.
abbrev lit : Bytes → Str
lit s = record { buf = at none (s ++ 0 ∷ []); len = length s }

lit-Holds : (s : Bytes) → Holds (lit s) s
lit-Holds s = record { block = none; rest = 0 ∷ []; buf = refl; len = refl }

abbrev root : Bytes
root = codes "/root"

abbrev root_x : Bytes
root_x = codes "/root/x"

abbrev a : Bytes
a = codes "/a"

strcmp-zero_iff_example : (strcmp (lit root) (lit root_x) ≡ some (pos 0)) ↔ (root ≡ root_x)
strcmp-zero_iff_example =
    strcmp-zero_iff (lit root) (lit root_x) root root_x (lit-Holds root) (lit-Holds root_x)
      (omega arith) (omega arith)

strprefix_iff_example :
    ((strprefix (lit root_x) (lit root) ≡ some true) ↔ ((rest : Bytes) × (root_x ≡ root ++ rest)))
    × ((b : Bool) × (strprefix (lit root_x) (lit root) ≡ some b))
strprefix_iff_example =
    strprefix_iff (lit root_x) (lit root) root_x root (lit-Holds root_x) (lit-Holds root)

str_free-str_copy_example :
    Returns
      (λ s v. Holds s root × (v.live 2 ≡ true))
      (str_copy (kernel true) (at none (root ++ 0 ∷ [])) world)
    × Returns
        (λ _ v. ((x : ℕ) → v.live x ≡ world.live x) × (v.mgr ≡ world.mgr))
        (and_then (str_copy (kernel true) (at none (root ++ 0 ∷ [])) world) str_free)
str_free-str_copy_example =
    str_free-str_copy (kernel true) world none root [] (omega arith) refl refl

abbrev accept_line : Bytes
accept_line = codes "Accept: */*"

header_append-Appended_example :
    Returns
      (Appended (line accept_line) [] world)
      (header_append (kernel true) (at none (accept_line ++ 0 ∷ [])) [] world)
header_append-Appended_example =
    header_append-Appended (kernel true) (λ t n. refl) world none accept_line [] [] (omega arith)
      (λ b le. ground arith)

-- A list of one header, whose text is block 2 and whose node is block 3.
abbrev one : Header
one = record { block = 3; header = record { buf = at (some 2) (accept_line ++ 0 ∷ []); len = 11 } }

abbrev holding : World
holding = record world { live = mark (mark world.live 2 true) 3 true; next_block = 4 }

no_crlf : strstr crlf accept_line ≡ false
unfolding strstr starts
no_crlf = refl

headers_free-Without_example :
    Returns (λ _ v. Without (2 ∷ (3 ∷ [])) holding v) (headers_free (one ∷ []) holding)
headers_free-Without_example =
    headers_free-Without holding (one ∷ []) (2 ∷ (3 ∷ [])) (refl, refl, refl) (refl, (refl, tt))
      (refl, (refl, tt))
