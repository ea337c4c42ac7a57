-- ===== src/Request/Wire.antt =====
-- What a client sends: a request line, headers and an empty line.
use sculpt.Base.{
  All, All-append, length-append, ◌+◌, ◌≡◌, ◌<◌, refl, Bool, false, ◌||◌, List, [], ◌∷◌, ◌++◌,
  Bytes, codes, length, has, arith,
}
use sculpt.Text.{crlf, strstr, starts, IsText, Short}
use sculpt.Reader.{cr, lf, header_buf_size}
use sculpt.Headers.Append.{line}

-- A line that fits into the buffer of `parse_all_headers` with its CR LF, has no CR or NUL and is not empty.
pub record IsLine (s : Bytes) : Type 0 where
  pub plain : has cr s ≡ false
  pub text : has 0 s ≡ false
  pub nonempty : 0 < length s
  pub fits : length s + 2 < header_buf_size

-- The bytes of the headers, and what follows them.
abbrev pub wire_to : List Bytes → Bytes → Bytes
wire_to [] tail = tail
wire_to (s ∷ ls) tail = s ++ cr ∷ lf ∷ [] ++ wire_to ls tail

-- The bytes of the headers, with the empty line that ends them.
abbrev pub wire : List Bytes → Bytes
wire ls = wire_to ls (cr ∷ lf ∷ [])

-- The texts of the headers' list once the lines have been read, the latest first.
abbrev pub stacked : List Bytes → List Bytes → List Bytes
stacked [] texts = texts
stacked (s ∷ ls) texts = stacked ls ((s ++ crlf) ∷ texts)

pub length-stacked : (ls texts : List Bytes) → length (stacked ls texts) ≡ length ls + length texts
length-stacked [] texts = omega arith
length-stacked (s ∷ ls) texts = omega (arith, length-stacked ls ((s ++ crlf) ∷ texts))

abbrev pub keep_alive_text : Bytes
keep_alive_text = codes "Connection: keep-alive"

-- Does a line ask to keep the connection?
abbrev pub asks_keep_alive : List Bytes → Bool
asks_keep_alive [] = false
asks_keep_alive (s ∷ ls) = strstr keep_alive_text s || asks_keep_alive ls

pub IsText-of_has : (s : Bytes) → has 0 s ≡ false → IsText s
IsText-of_has [] h = tt
IsText-of_has (c ∷ s) h = (ground (arith, h), IsText-of_has s (ground (arith, h)))

strstr-crlf : (s : Bytes) → has cr s ≡ false → strstr crlf s ≡ false
unfolding strstr starts
strstr-crlf [] h = refl
strstr-crlf (c ∷ s) h = ground (arith, h, strstr-crlf s)

pub line-plain : (s : Bytes) → has cr s ≡ false → line s ≡ s ++ crlf
unfolding line
line-plain s h = rw (strstr-crlf s h) refl

-- A line whose text can be kept.
abbrev pub Fits : Bytes → Type 0
Fits s = IsText s × (length s + 2 < header_buf_size)

pub IsLine-Fits : (ls : List Bytes) → All IsLine ls → All Fits ls
IsLine-Fits [] h = tt
IsLine-Fits (s ∷ ls) (h, hs) = ((IsText-of_has s h.text, h.fits), IsLine-Fits ls hs)

stacked-Texts-onto :
    (ls texts : List Bytes)
    → All Fits ls
    → All IsText texts
    → Short texts
    → All IsText (stacked ls texts) × Short (stacked ls texts)
stacked-Texts-onto [] texts h t n = (t, n)
stacked-Texts-onto (s ∷ ls) texts ((text, fits), hs) t n =
    stacked-Texts-onto ls ((s ++ crlf) ∷ texts) hs (All-append _ s crlf text (omega arith), t)
      (omega (arith, fits, length-append s crlf), n)

-- What is kept of such lines.
pub stacked-Texts :
    (ls : List Bytes) → All Fits ls → All IsText (stacked ls []) × Short (stacked ls [])
stacked-Texts ls h = stacked-Texts-onto ls [] h tt tt
