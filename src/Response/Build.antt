-- ===== src/Response/Build.antt =====
-- The bytes of a response, and its buffer.
use sculpt.Base.{
  append-nil, ℕ, zero, suc, ◌+◌, ◌%◌, ◌^◌, ◌≡◌, ◌<◌, ◌≤◌, refl, false, Option, some, List, [], ◌∷◌,
  ◌++◌, Bytes, length, length-append, take, ==_ne, arith, ℤ, pos, ap, sym, ◌∙◌, append_assoc, All,
  Bool-cases, inl, inr, ◌⊎◌,
}
use sculpt.Machine.{Str, Buffer, null, at, Header, Kernel, World, malloc}
use sculpt.Machine.Heap.{alloc}
use sculpt.Machine.Returns.{Returns, returns}
use sculpt.Str.{Holds, readable}
use sculpt.Str.Copy.{after_copy}
use sculpt.Text.{crlf, c_string-append, IsText}
use sculpt.Request.Loaded.{HoldTexts}
use sculpt.Response.{
  status_line, decimal_ℤ, template_len, headers_len, response_len, take_string, append_to,
  append_headers, append_bytes, print_to, fill_response, build_in, request_build,
}
use sculpt.Response.Decimal.{length-decimal}

-- The texts of the headers, one behind the other.
abbrev pub joined : List Bytes → Bytes
joined [] = []
joined (t ∷ ts) = t ++ joined ts

-- A response, as HTTP asks for it: the status line and two headers, the other headers, an empty line and the body.
abbrev pub response : ℤ → Bytes → List Bytes → Bytes → Bytes
response code code_str texts body =
    status_line code code_str (length body) ++ joined texts ++ crlf ++ body

take_string-text : (t r : Bytes) → IsText t → take_string (length t) (t ++ r) ≡ some t
unfolding take_string
take_string-text [] r h = refl
take_string-text (c ∷ t) r h = rw (==_ne c 0 h.0, take_string-text t r h.1) refl

-- A literal is taken up to its NUL, when the bound leaves room for it.
pub take_string-literal :
    (n : ℕ) (t r : Bytes) → IsText t → length t ≤ n → take_string n (t ++ 0 ∷ r) ≡ some t
unfolding take_string
take_string-literal zero [] r h fits = refl
take_string-literal (suc n) [] r h fits = refl
take_string-literal zero (c ∷ t) r h fits = absurd (omega (arith, fits))
take_string-literal (suc n) (c ∷ t) r h fits =
    rw (==_ne c 0 h.0, take_string-literal n t r h.1 (omega (arith, fits))) refl

-- `strncat` of a string that holds a text takes all of it.
pub take_string-Holds :
    (x : Str) (t : Bytes) → Holds x t → IsText t → take_string x.len (readable x.buf) ≡ some t
take_string-Holds x t h text =
    ap (λ n. take_string n (readable x.buf)) h.len
    ∙ ap (λ b. take_string (length t) (readable b)) h.buf
    ∙ take_string-text t h.rest text

pub append_to-fits :
    (size : ℕ) (s t : Bytes)
    → length s + length t < size
    → append_to size s (some t) ≡ some (s ++ t)
unfolding append_to
append_to-fits size s t h = ground (arith, h)

headers_len-texts :
    (hs : List Header) (ts : List Bytes) → HoldTexts hs ts → length (joined ts) ≤ headers_len hs
unfolding headers_len
headers_len-texts [] [] h = omega arith
headers_len-texts [] (t ∷ ts) h = elim h [ ]
headers_len-texts (x ∷ hs) [] h = elim h [ ]
headers_len-texts (x ∷ hs) (t ∷ ts) (h, rest) =
    omega (arith, headers_len-texts hs ts rest, h.len, length-append t (joined ts))

append_headers-fits :
    (size : ℕ) (hs : List Header) (ts : List Bytes) (s : Bytes)
    → HoldTexts hs ts
    → All IsText ts
    → length s + length (joined ts) < size
    → append_headers size hs (some s) ≡ some (s ++ joined ts)
unfolding append_headers
append_headers-fits size [] [] s h text fits = ap some (sym (append-nil s))
append_headers-fits size [] (t ∷ ts) s h text fits = elim h [ ]
append_headers-fits size (x ∷ hs) [] s h text fits = elim h [ ]
append_headers-fits size (x ∷ hs) (t ∷ ts) s (h, rest) (text, texts) fits =
    ap (append_headers size hs) (
      ap (append_to size s) (take_string-Holds x.header t h text)
      ∙ append_to-fits size s t (omega (arith, fits, length-append t (joined ts))))
    ∙ append_headers-fits size hs ts (s ++ t) rest texts
        (omega (arith, fits, length-append t (joined ts), length-append s t))
    ∙ ap some (append_assoc s t (joined ts))

take-all : (n : ℕ) (s : Bytes) → length s ≤ n → take n s ≡ s
take-all zero [] h = refl
take-all (suc n) [] h = refl
take-all zero (c ∷ s) h = absurd (omega (arith, h))
take-all (suc n) (c ∷ s) h = ap (◌∷◌ c) (take-all n s (omega (arith, h)))

-- The status line with a code of three digits at most.
length-status_line :
    (code : ℕ) (cs : Bytes) (n : ℕ)
    → code < 1000
    → n < 10 ^ 20
    → length (status_line (pos code) cs n) ≤ 77 + length cs
unfolding status_line decimal_ℤ
length-status_line code cs n c h =
    omega (arith, length-append {0}, length-decimal 2 code c, length-decimal 19 n h)

-- What the sizes of a request come to before they wrap around.
abbrev pub whole_len : ℕ → ℕ → List Header → ℕ
whole_len c b hs = template_len + c + 3 + 16 + 4 + headers_len hs + b

fill_response-fits :
    (code : ℕ) (cs body : Bytes) (hs : List Header) (ts : List Bytes) (len : ℕ)
    → code < 1000
    → length body < 10 ^ 20
    → HoldTexts hs ts
    → All IsText ts
    → len ≡ whole_len (length cs) (length body) hs
    → fill_response len (pos code) cs body hs ≡ some (response (pos code) cs ts body)
unfolding fill_response print_to append_bytes
fill_response-fits code cs body hs ts zero small big hold text e = absurd (omega (arith, e))
fill_response-fits code cs body hs ts (suc n) small big hold text e =
    let line = status_line (pos code) cs (length body) in
    let short = length-status_line code cs (length body) small big in
    let heads = headers_len-texts hs ts hold in
    let a = length-append line (joined ts) in
    let b = length-append (line ++ joined ts) crlf in
    rw
      (
        take-all n line (omega (arith, e, short)),
        append_headers-fits (suc n + 1) hs ts line hold text (omega (arith, e, short, heads)),
        append_to-fits (suc n + 1) (line ++ joined ts) crlf (omega (arith, e, short, heads, a)),
        append_to-fits (suc n + 1) (line ++ joined ts ++ crlf) body
            (omega (arith, e, short, heads, a, b)),
      )
      refl

-- The response in the first unused block.
abbrev pub BuiltIn : World → Bytes → Buffer → World → Type 0
BuiltIn w text r v =
    (r ≡ at (some w.next_block) (text ++ 0 ∷ [])) × ((n : ℕ) × (v ≡ after_copy w n))

-- NULL, as memory was asked for and not granted.
abbrev pub Refused : Kernel → World → Buffer → World → Type 0
Refused k w r v =
    (r ≡ null) × ((v.live ≡ w.live) × ((n : ℕ) × (k.grants (malloc n ∷ w.trace) ≡ false)))

module _ (k : Kernel) (w : World) (code : ℕ) (cs body crest brest : Bytes) (hs : List Header)
    (ts : List Bytes) where
  -- For a code of three digits at most, where the headers hold texts and the sizes do not wrap around,
  -- `sc_easy_request_build` stays within its buffer. If memory is granted it returns, in a new block, the status line
  -- with the length of the body, the headers, an empty line and the body, with a NUL; and NULL otherwise.
  pub request_build-response :
      (cb bb : Option ℕ)
      → code < 1000
      → IsText cs
      → IsText body
      → HoldTexts hs ts
      → All IsText ts
      → whole_len (length cs) (length body) hs + 1 < 2 ^ 64
      → Returns
          (λ r v. BuiltIn w (response (pos code) cs ts body) r v ⊎ Refused k w r v)
          (request_build k (pos code) (at cb (cs ++ 0 ∷ crest)) (at bb (body ++ 0 ∷ brest)) hs w)
  unfolding request_build build_in alloc response_len
  request_build-response cb bb small ct bt hold text room =
      let len = whole_len (length cs) (length body) hs in
      let exact : len % 2 ^ 64 ≡ len = omega (arith, room) in
      let exact' : (len + 1) % 2 ^ 64 ≡ len + 1 = omega (arith, room) in
      rw (c_string-append cs crest ct, c_string-append body brest bt, exact, exact')
        (elim (Bool-cases (k.grants (malloc (len + 1) ∷ w.trace))) [
          | inr e ↦ rw e (returns (inr (refl, (refl, (len + 1, e)))))
          | inl e ↦
              rw
                (
                  e,
                  fill_response-fits code cs body hs ts len small (omega (arith, room)) hold text
                      refl,
                )
                (returns (inl (refl, (len + 1, refl))))
        ])
