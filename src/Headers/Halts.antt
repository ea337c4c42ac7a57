-- ===== src/Headers/Halts.antt =====
-- The functions on headers always end.
use sculpt.Base.{ℕ, ◌≤◌, ℤ, none, some, List, [], ◌∷◌, inl, inr, Bool-cases, Option, Bytes}
use sculpt.Machine.{Kernel, World, Header, Str, Buffer, null, wild, at}
use sculpt.Machine.Reads.{count_reads}
use sculpt.Machine.Halts.{
  Any, release-Any, Halts, halts, faults, Past, and_then-Halts, need-Halts, alloc-Halts,
  release-Halts,
}
use sculpt.Str.{str_free, readable, str_copy, strlen}
use sculpt.Str.Copy.{str_copy_n-Halts}
use sculpt.Text.{c_string, strstr, crlf}
use sculpt.Headers.{headers_free, header_append, append_crlf, create_header, fill_node, is_null}

module _ (k : Kernel) (fd : ℤ) (m : ℕ) where
  str_copy-Halts :
      (b : Buffer) (w : World) → m ≤ count_reads fd w.trace → Halts (Past fd m) (str_copy k b w)
  unfolding str_copy
  str_copy-Halts b w h =
      and_then-Halts (need-Halts {P = Past fd m} (strlen (readable b)) w (λ n. h))
        λ n v g. str_copy_n-Halts k b n v fd m g

  fill_node-Halts :
      (text : Buffer) (next : List Header) (o : Option ℕ) (w : World)
      → m ≤ count_reads fd w.trace
      → Halts (Past fd m) (fill_node k text next o w)
  unfolding fill_node
  fill_node-Halts text next none w h = halts h
  fill_node-Halts text next (some b) w h =
      and_then-Halts (str_copy-Halts text w h)
        λ s v g. elim (Bool-cases (is_null s.buf)) [ inl e ↦ rw e faults | inr e ↦ rw e (halts g) ]

  create_header-Halts :
      (text : Buffer) (next : List Header) (w : World)
      → m ≤ count_reads fd w.trace
      → Halts (Past fd m) (create_header k text next w)
  unfolding create_header
  create_header-Halts text next w h =
      and_then-Halts (alloc-Halts k _ w fd m h) λ o v g. fill_node-Halts text next o v g

  append_crlf-Halts :
      (s : Bytes) (list : List Header) (o : Option ℕ) (w : World)
      → m ≤ count_reads fd w.trace
      → Halts (Past fd m) (append_crlf k s list o w)
  unfolding append_crlf
  append_crlf-Halts s list none w h = halts h
  append_crlf-Halts s list (some b) w h =
      and_then-Halts (create_header-Halts _ list w h)
        λ res v g. and_then-Halts (release-Halts b v fd m g) λ _ u f. halts f

  pub header_append-Halts :
      (text : Buffer) (list : List Header) (w : World)
      → m ≤ count_reads fd w.trace
      → Halts (Past fd m) (header_append k text list w)
  unfolding header_append
  header_append-Halts text list w h =
      and_then-Halts (need-Halts {P = Past fd m} (c_string (readable text)) w (λ s. h)) λ s v g.
        elim (Bool-cases (strstr crlf s)) [
          | inl e ↦ rw e (create_header-Halts text list v g)
          | inr e ↦
              rw e
                (and_then-Halts (alloc-Halts k _ v fd m g) λ o u f. append_crlf-Halts s list o u f)
        ]

pub str_free-Halts : (s : Str) (w : World) → Halts Any (str_free s w)
unfolding str_free
str_free-Halts s w = go s.len s.buf
  where
    go : (n : ℕ) (b : Buffer) → Halts Any (str_free (record { buf = b; len = n }) w)
    go n null = halts tt
    go n wild = faults
    go n (at none s) = faults
    go n (at (some b) s) = release-Any b w

pub headers_free-Halts : (hs : List Header) (w : World) → Halts Any (headers_free hs w)
unfolding headers_free
headers_free-Halts [] w = halts tt
headers_free-Halts (h ∷ hs) w =
    and_then-Halts (str_free-Halts h.header w)
      λ _ v p. and_then-Halts (release-Any h.block v) λ _ u q. headers_free-Halts hs u
