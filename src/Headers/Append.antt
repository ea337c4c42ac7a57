-- ===== src/Headers/Append.antt =====
-- `sc_header_append`: the node that it makes, and what it does without memory.
use sculpt.Base.{
  All-append, ℤ, length-append, Bool-cases, inl, inr, ◌≤◌, if◌then◌else◌, ℕ, ◌≡◌, refl, true, false,
  Option, none, some, List, [], ◌∷◌, ◌++◌, ◌+◌, ◌%◌, ◌^◌, Bytes, length, arith, has,
}
use sculpt.Machine.{at, Header, World, Kernel, Trace, malloc, ok}
use sculpt.Machine.Heap.{release, alloc}
use sculpt.Machine.Holding.{Fresh}
use sculpt.Machine.Reads.{count_reads}
use sculpt.Machine.Since.{Since, now, later}
use sculpt.Machine.Returns.{Returns, returns}
use sculpt.Str.{str_copy, Holds}
use sculpt.Str.Copy.{copied, after_copy, copy_size, str_copy_n-copied, strlen-append}
use sculpt.Text.{crlf, IsText, c_string-append, strstr}
use sculpt.Headers.{append_crlf, create_header, fill_node, header_append, node_size}
use sculpt.Headers.Free.{Owns}

-- Every request for memory is granted.
abbrev pub Generous : Kernel → Type 0
Generous k = (t : Trace) (n : ℕ) → k.grants (malloc n ∷ t) ≡ true

-- The text as `sc_header_append` stores it: with CR LF behind it if it holds none.
unfoldable pub line : Bytes → Bytes
line a = if strstr crlf a then a else a ++ crlf

pub length-line : (a : Bytes) → length (line a) ≤ length a + 2
unfolding line
length-line a = elim (Bool-cases (strstr crlf a)) [
  | inl e ↦ rw e (omega arith)
  | inr e ↦ rw e (omega (arith, length-append a crlf))
]

-- A node for the text `t` has been put in front of the list: its two blocks are new, and live is
-- what was live, and they.
pub record Appended (t : Bytes) (list : List Header) (w : World) (r : List Header) (v : World)
    : Type 0 where
  pub head : Header
  pub result : r ≡ head ∷ list
  pub holds : Holds head.header t
  pub text_block : ℕ
  pub owns : (bs : List ℕ) → Owns list bs → Owns r (text_block ∷ (head.block ∷ bs))
  pub text_new : w.next_block ≤ text_block
  pub node_new : w.next_block ≤ head.block
  pub apart : has text_block (head.block ∷ []) ≡ false
  pub live :
      (b : ℕ) → v.live b ≡ (if has b (text_block ∷ (head.block ∷ [])) then true else w.live b)
  pub same_mgr : v.mgr ≡ w.mgr
  pub fresh : Fresh w → Fresh v
  pub quiet : (fd : ℤ) → count_reads fd v.trace ≡ count_reads fd w.trace
  pub since : Since none w.trace v.trace

module _ (k : Kernel) (generous : Generous k) where
  create_header-ok :
      (w : World) (b : Option ℕ) (t r : Bytes) (list : List Header)
      → IsText t
      → create_header k (at b (t ++ 0 ∷ r)) list w
        ≡ ok
            (record { block = w.next_block; header = copied (after_copy w node_size) t } ∷ list)
            (after_copy (after_copy w node_size) (copy_size (length t)))
  unfolding create_header fill_node alloc str_copy
  create_header-ok w b t r list text =
      rw
        (
          generous w.trace node_size,
          strlen-append t r text,
          str_copy_n-copied k (after_copy w node_size) b t (0 ∷ r) (generous _ _),
        )
        refl

  header_append-crlf :
      (w : World) (b : Option ℕ) (a r : Bytes) (list : List Header)
      → IsText a
      → strstr crlf a ≡ true
      → Returns (Appended a list w) (header_append k (at b (a ++ 0 ∷ r)) list w)
  unfolding header_append
  header_append-crlf w b a r list text found =
      rw (c_string-append a r text, found, create_header-ok w b a r list text)
        (returns (record {
          head = record { block = w.next_block; header = copied (after_copy w node_size) a };
          result = refl;
          holds = record { block = some (w.next_block + 1); rest = 0 ∷ []; buf = refl; len = refl };
          text_block = w.next_block + 1;
          owns = λ bs own. (refl, refl, own);
          text_new = omega arith;
          node_new = omega arith;
          apart = ground arith;
          live = λ x. ground arith;
          same_mgr = refl;
          fresh = λ f x le. ground (arith, f x);
          quiet = λ fd. refl;
          since = later tt (later tt now);
        }))

  -- The buffer for the line with CR LF is block `w.next_block`; it is free again at the end.
  append_crlf-Appended :
      (w : World) (a : Bytes) (n : ℕ) (list : List Header)
      → IsText a
      → Fresh w
      → Returns
          (Appended (a ++ crlf) list w)
          (append_crlf k a list (some w.next_block) (after_copy w n))
  unfolding append_crlf release
  append_crlf-Appended w a n list text fresh =
      let t = a ++ crlf in
      let whole : IsText t = All-append _ a crlf text (ground arith, (ground arith, tt)) in
      let unused = fresh w.next_block (omega arith) in
      rw (create_header-ok (after_copy w n) (some w.next_block) t [] list whole, held w n t)
        (returns (record {
          head = record {
            block = w.next_block + 1;
            header = copied (after_copy (after_copy w n) node_size) t;
          };
          result = refl;
          holds = record {
            block = some (w.next_block + 1 + 1);
            rest = 0 ∷ [];
            buf = refl;
            len = refl;
          };
          text_block = w.next_block + 1 + 1;
          owns = λ bs own. (refl, refl, own);
          text_new = omega arith;
          node_new = omega arith;
          apart = ground arith;
          live = λ x. ground arith;
          same_mgr = refl;
          fresh = λ f x le. ground (arith, f x);
          quiet = λ fd. refl;
          since = later tt (later tt (later tt (later tt now)));
        }))
    where
      held :
          (w : World) (n : ℕ) (t : Bytes)
          → (after_copy (after_copy (after_copy w n) node_size) (copy_size (length t))).live
              w.next_block
            ≡ true
      held w n t = ground arith

  header_append_plain :
      (w : World) (b : Option ℕ) (a r : Bytes) (list : List Header)
      → IsText a
      → Fresh w
      → strstr crlf a ≡ false
      → Returns (Appended (a ++ crlf) list w) (header_append k (at b (a ++ 0 ∷ r)) list w)
  unfolding header_append alloc
  header_append_plain w b a r list text fresh absent =
      let size = (length a + 3) % 2 ^ 64 in
      rw (c_string-append a r text, absent, generous w.trace size)
        (append_crlf-Appended w a size list text fresh)

  -- With memory granted `sc_header_append` of a C string does not fault: it puts one node in front
  -- of the list, which holds the text, with CR LF behind it if there was none; two new blocks are
  -- live, owned by the result, and everything else is as it was, the line's buffer given back.
  pub header_append-Appended :
      (w : World) (b : Option ℕ) (a r : Bytes) (list : List Header)
      → IsText a
      → Fresh w
      → Returns (Appended (line a) list w) (header_append k (at b (a ++ 0 ∷ r)) list w)
  unfolding line
  header_append-Appended w b a r list text fresh = elim (Bool-cases (strstr crlf a)) [
    | inl e ↦ rw e (header_append-crlf w b a r list text e)
    | inr e ↦ rw e (header_append_plain w b a r list text fresh e)
  ]

-- Without memory for the line `sc_header_append` returns NULL, and the list that it was given,
-- whose blocks are still live, is in no result.
pub header_append-nil :
    (k : Kernel) (w : World) (b : Option ℕ) (a r : Bytes) (list : List Header)
    → IsText a
    → strstr crlf a ≡ false
    → k.grants (malloc ((length a + 3) % 2 ^ 64) ∷ w.trace) ≡ false
    → Returns
        (λ res v. (res ≡ []) × ((x : ℕ) → v.live x ≡ w.live x))
        (header_append k (at b (a ++ 0 ∷ r)) list w)
unfolding header_append append_crlf alloc
header_append-nil k w b a r list text absent refused =
    rw (c_string-append a r text, absent, refused) (returns (refl, λ x. refl))
