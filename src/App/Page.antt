-- ===== src/App/Page.antt =====
-- The page of `root_handler`: what is in it, and that it stays within its buffer.
use sculpt.Base.{
  ℕ, ◌+◌, ◌-◌, ◌%◌, ◌^◌, ◌≡◌, ◌<◌, ◌≤◌, refl, true, false, some, List, [], ◌∷◌, ◌++◌, Bytes, codes,
  length, length-append, ltb, leb, if◌then◌else◌, arith, All, All-append, ap, ◌∙◌, sym,
  append_assoc, append-nil, Bool-cases, inl, inr,
}
use sculpt.Machine.{Header}
use sculpt.Str.{Holds, readable}
use sculpt.Text.{IsText, Short}
use sculpt.Request.Loaded.{HoldTexts}
use sculpt.Response.{take_string, append_to}
use sculpt.Response.Build.{take_string-literal, take_string-Holds, append_to-fits}
use sculpt.App.{body_buf, literal, greeting, add_to_body, add_header, add_headers, root_body}

-- A header as a paragraph.
abbrev pub paragraph : Bytes → Bytes
paragraph t = codes "<p>" ++ t ++ codes "</p>"

-- As many of the headers as there is room for, up to the first one that does not fit.
pub paragraphs : (room : ℕ) → List Bytes → Bytes
paragraphs room [] = []
paragraphs room (t ∷ ts) =
    let rest = paragraphs (room - (length t + 7)) ts in
    if ltb (length t + 7) room then paragraph t ++ rest else []

-- The page for the headers of a request.
pub page : List Bytes → Bytes
unfolding paragraphs
page ts = greeting ++ paragraphs (body_buf - 8 - length greeting) ts ++ codes "</html>"

add_to_body-fits :
    (n : ℕ) (body t src : Bytes)
    → take_string n src ≡ some t
    → length body + length t < body_buf
    → add_to_body (some body) src n ≡ some (body ++ t)
unfolding add_to_body
add_to_body-fits n body t src e fits =
    ap (append_to body_buf body) e ∙ append_to-fits body_buf body t fits

add_to_body-literal :
    (n : ℕ) (body t : Bytes)
    → IsText t
    → length t ≤ n
    → length body + length t < body_buf
    → add_to_body (some body) (literal t) n ≡ some (body ++ t)
add_to_body-literal n body t text bound fits =
    add_to_body-fits n body t (literal t) (take_string-literal n t [] text bound) fits

add_header-fits :
    (h : Header) (t body : Bytes)
    → Holds h.header t
    → IsText t
    → length body + length t + 7 < body_buf
    → add_header h (some body) ≡ some (body ++ paragraph t)
unfolding add_header
add_header-fits h t body holds text fits =
    let o = codes "<p>" in
    let z = codes "</p>" in
    let a = length-append body o in
    let b = length-append (body ++ o) t in
    rw
      (
        add_to_body-literal 4 body o (omega arith) (omega arith) (omega (arith, fits)),
        add_to_body-fits h.header.len (body ++ o) t (readable h.header.buf)
            (take_string-Holds h.header t holds text) (omega (arith, fits, a)),
        add_to_body-literal 5 (body ++ o ++ t) z (omega arith) (omega arith)
            (omega (arith, fits, a, b)),
      )
      (ap some (ap (λ s. s ++ z) (append_assoc body o t) ∙ append_assoc body (o ++ t) z))

add_headers-paragraphs :
    (hs : List Header) (ts : List Bytes) (body : Bytes) (room : ℕ)
    → HoldTexts hs ts
    → All IsText ts
    → Short ts
    → length body + room ≡ body_buf - 8
    → add_headers hs (length body) (some body) ≡ some (body ++ paragraphs room ts)
unfolding add_headers paragraphs
add_headers-paragraphs [] [] body room hold text short e = ap some (sym (append-nil body))
add_headers-paragraphs [] (t ∷ ts) body room hold text short e = elim hold [ ]
add_headers-paragraphs (h ∷ hs) [] body room hold text short e = elim hold [ ]
add_headers-paragraphs (h ∷ hs) (t ∷ ts) body room (holds, hold) (text, texts) (small, short) e =
    let size = length body + length t + 7 in
    let wrap : (length body + h.header.len + 7) % 2 ^ 64 ≡ size =
      omega (arith, e, small, holds.len) in
    let wrap' : (size + 8) % 2 ^ 64 ≡ size + 8 = omega (arith, e, small) in
    let grown : length (body ++ paragraph t) ≡ size =
      omega (arith, length-append body (paragraph t), length-append t (codes "</p>")) in
    rw (wrap, wrap')
      (elim (Bool-cases (ltb (length t + 7) room)) [
        | inr full ↦
            let over : leb body_buf (size + 8) ≡ true = ground (arith, e, full) in
            rw (over, full) (ap some (sym (append-nil body)))
        | inl fits ↦
            let under : leb body_buf (size + 8) ≡ false = ground (arith, e, fits) in
            let more : size + (room - (length t + 7)) ≡ body_buf - 8 = ground (arith, e, fits) in
            rw
              (
                under,
                fits,
                add_header-fits h t body holds text (ground (arith, e, fits)),
                sym grown,
                add_headers-paragraphs hs ts (body ++ paragraph t) (room - (length t + 7)) hold
                    texts short (omega (arith, grown, more)),
              )
              (ap some (append_assoc body (paragraph t) (paragraphs (room - (length t + 7)) ts)))
      ])

length-paragraphs : (room : ℕ) (ts : List Bytes) → length (paragraphs room ts) ≤ room
unfolding paragraphs
length-paragraphs room [] = omega arith
length-paragraphs room (t ∷ ts) = elim (Bool-cases (ltb (length t + 7) room)) [
  | inr full ↦ rw full (omega arith)
  | inl fits ↦
      let rest = paragraphs (room - (length t + 7)) ts in
      let shorter = length-paragraphs (room - (length t + 7)) ts in
      let a = length-append t (codes "</p>") in
      let b = length-append (paragraph t) rest in rw fits (ground (arith, fits, shorter, a, b))
]

paragraphs-IsText : (room : ℕ) (ts : List Bytes) → All IsText ts → IsText (paragraphs room ts)
unfolding paragraphs
paragraphs-IsText room [] h = tt
paragraphs-IsText room (t ∷ ts) (text, texts) = elim (Bool-cases (ltb (length t + 7) room)) [
  | inr full ↦ rw full tt
  | inl fits ↦
      let rest = paragraphs-IsText (room - (length t + 7)) ts texts in
      let opened = All-append _ (codes "<p>") t (omega arith) text in
      rw fits (
        All-append _ (paragraph t) _
          (All-append _ (codes "<p>" ++ t) (codes "</p>") opened (omega arith)) rest)
]

pub page-IsText : (ts : List Bytes) → All IsText ts → IsText (page ts)
unfolding page
page-IsText ts texts =
    let front =
      All-append _ greeting (paragraphs (body_buf - 8 - length greeting) ts) (omega arith)
        (paragraphs-IsText (body_buf - 8 - length greeting) ts texts) in
    All-append _ (greeting ++ paragraphs (body_buf - 8 - length greeting) ts) (codes "</html>")
      front (omega arith)

-- For headers that hold texts, `root_handler` writes the page of the headers that there is room for, and with
-- its NUL the page fits into the buffer.
pub root_body-page :
    (hs : List Header) (ts : List Bytes)
    → HoldTexts hs ts
    → All IsText ts
    → Short ts
    → (root_body hs ≡ some (page ts)) × (length (page ts) < body_buf)
unfolding root_body page
root_body-page hs ts hold text short =
    let room = body_buf - 8 - length greeting in
    let inner = paragraphs room ts in
    let a = length-append greeting inner in
    let b = length-append (greeting ++ inner) (codes "</html>") in
    let bound = length-paragraphs room ts in
    (
      rw (add_headers-paragraphs hs ts greeting room hold text short refl) (
          add_to_body-literal 8 (greeting ++ inner) (codes "</html>") (omega arith) (omega arith)
            (omega (arith, a, bound))),
      omega (arith, a, b, bound),
    )
