-- ===== src/Headers/Free.antt =====
-- `sc_headers_free`: what it gives back, and what a second call does.
use sculpt.Base.{
  ◌<◌, length, eq_of_some, ℕ, ◌≡◌, refl, true, false, Option, none, some, List, [], ◌∷◌, has,
  Distinct, if◌then◌else◌, arith, ◌∙◌,
}
use sculpt.Machine.{ok, free, Buffer, null, wild, at, Str, Header, World, fault, and_then}
use sculpt.Machine.Heap.{release}
use sculpt.Machine.Blocks.{Live, Live-mark, released_block, release-ok, release-fault}
use sculpt.Machine.Since.{Since, now, later, Since-trans}
use sculpt.Machine.Returns.{and_then-fault, Returns, returns, Returns-mono}
use sculpt.Str.{str_free}
use sculpt.Headers.{headers_free}

abbrev pub block_of : Buffer → Option ℕ
block_of null = none
block_of wild = none
block_of (at b s) = b

-- The list owns the blocks: of each node, its text and then itself.
abbrev pub Owns : List Header → List ℕ → Type 0
Owns [] bs = bs ≡ []
Owns (h ∷ hs) [] = ⊥
Owns (h ∷ hs) (b ∷ []) = ⊥
Owns (h ∷ hs) (b ∷ (n ∷ bs)) = (block_of h.header.buf ≡ some b) × (h.block ≡ n) × Owns hs bs

-- `v` is `w` without the blocks, after more calls.
abbrev pub Without : List ℕ → World → World → Type 0
Without bs w v =
    ((a : ℕ) → v.live a ≡ (if has a bs then false else w.live a))
    × (v.mgr ≡ w.mgr)
    × (v.next_block ≡ w.next_block)
    × Since none w.trace v.trace

pub str_free-release :
    (s : Str) (b : ℕ) (w : World) → block_of s.buf ≡ some b → str_free s w ≡ release b w
unfolding str_free
str_free-release s b w h = go s.len s.buf h
  where
    go :
        (n : ℕ) (buf : Buffer)
        → block_of buf ≡ some b
        → str_free (record { buf = buf; len = n }) w ≡ release b w
    go n null e = cc
    go n wild e = cc
    go n (at none s) e = cc
    go n (at (some c) s) e = rw (eq_of_some e) refl

pub headers_free-nil : (w : World) → headers_free [] w ≡ ok tt w
unfolding headers_free
headers_free-nil w = refl

-- `sc_headers_free` of a list that owns live and distinct blocks does not fault, and frees exactly
-- those blocks.
pub headers_free-Without :
    (w : World) (hs : List Header) (bs : List ℕ)
    → Owns hs bs
    → Distinct bs
    → Live w.live bs
    → Returns (λ _ v. Without bs w v) (headers_free hs w)
unfolding headers_free
headers_free-Without w [] bs own apart live = rw own (returns ((λ a. refl), refl, refl, now))
headers_free-Without w (h ∷ hs) [] own apart live = absurd own
headers_free-Without w (h ∷ hs) (b ∷ []) own apart live = absurd own
headers_free-Without w (h ∷ hs) (b ∷ (n ∷ bs)) (text, node, own) (out, (out', apart))
      (l, (l', live)) =
    let u = released_block w b in
    let v = released_block u n in
    let l'' : u.live n ≡ true = ground arith in
    rw (str_free-release h.header b w text, release-ok w b l, node, release-ok u n l'')
      (Returns-mono
        (headers_free-Without v hs bs own apart
          (Live-mark u.live n bs out' (Live-mark w.live b bs (ground arith) live)))
        λ _ x (gone, same, next, since). (
          (λ a. gone a ∙ ground arith),
          same,
          next,
          Since-trans (later {c = free n} tt (later {c = free b} tt now)) since,
        ))

-- Freeing a list that is not empty, and whose blocks are not live, faults on the text of its first header.
pub headers_free-dead :
    (w : World) (hs : List Header) (bs : List ℕ)
    → 0 < length hs
    → Owns hs bs
    → ((a : ℕ) → has a bs ≡ true → w.live a ≡ false)
    → headers_free hs w ≡ fault
unfolding headers_free
headers_free-dead w [] bs some_left own dead = absurd (omega (arith, some_left))
headers_free-dead w (h ∷ hs) [] some_left own dead = absurd own
headers_free-dead w (h ∷ hs) (b ∷ []) some_left own dead = absurd own
headers_free-dead w (h ∷ hs) (b ∷ (n ∷ bs)) some_left own dead =
    rw (str_free-release h.header b w own.0, release-fault w b (dead b (ground arith))) refl

-- Freeing a list that is not empty a second time faults, on the text of its first header.
pub headers_free_twice-fault :
    (w : World) (h : Header) (hs : List Header) (bs : List ℕ)
    → Owns (h ∷ hs) bs
    → Distinct bs
    → Live w.live bs
    → and_then (headers_free (h ∷ hs) w) (λ _. headers_free (h ∷ hs)) ≡ fault
headers_free_twice-fault w h hs bs own apart live =
    and_then-fault (headers_free-Without w (h ∷ hs) bs own apart live) λ _ v (gone, _, _, _).
      headers_free-dead v (h ∷ hs) bs (omega arith) own λ a e. gone a ∙ rw e refl
