-- ===== src/Str/Copy.antt =====
-- `sc_str_copy_n`, `sc_str_copy` and `sc_str_free`.
use native.Mathlib.Omega.{arith}
use sculpt.Machine.Halts.{Halts, halts, Past, and_then-Halts, need-Halts, alloc-Halts}
use sculpt.Machine.Reads.{count_reads}
use sculpt.Machine.{Buffer, and_then, at, Str, World, Kernel, malloc, ok, fault}
use sculpt.Str.{take_exact, readable, str_copy_n, str_copy, str_free, Holds, strlen}
use sculpt.Base.{
  ◌≤◌, ℤ, List, false, ℕ, ◌+◌, ◌%◌, ◌^◌, ◌≡◌, refl, true, Option, some, [], ◌∷◌, ◌++◌, Bytes,
  length, ==_ne,
}
use sculpt.Machine.Heap.{release, alloc, mark}
use sculpt.Machine.Holding.{Holding, Holding-take}
use sculpt.Machine.Returns.{Returns, returns}
use sculpt.Text.{IsText}
use sculpt.Str.Prefix.{take_exact-append}

pub strlen-append : (a r : Bytes) → IsText a → strlen (a ++ 0 ∷ r) ≡ some (length a)
unfolding strlen
strlen-append [] r t = refl
strlen-append (c ∷ a) r t = rw (==_ne c 0 t.0, strlen-append a r t.1) refl

-- The copy owns the first unused block, which holds the bytes and a NUL.
abbrev pub copied : World → Bytes → Str
copied w a = record { buf = at (some w.next_block) (a ++ 0 ∷ []); len = length a }

-- The world in which the copy has been made.
abbrev pub after_copy : World → ℕ → World
after_copy w n = record w {
  trace = malloc n ∷ w.trace;
  live = mark w.live w.next_block true;
  next_block = w.next_block + 1;
}

-- What `malloc` is asked for, for `n` bytes and a NUL.
abbrev pub copy_size : ℕ → ℕ
copy_size n = (n + 1) % 2 ^ 64

module _ (k : Kernel) (w : World) (b : Option ℕ) (a r : Bytes) where
  pub str_copy_n-copied :
      k.grants (malloc (copy_size (length a)) ∷ w.trace) ≡ true
      → str_copy_n k (at b (a ++ r)) (length a) w
        ≡ ok (copied w a) (after_copy w (copy_size (length a)))
  unfolding str_copy_n alloc
  str_copy_n-copied got = rw (got, take_exact-append a r) refl

  -- Without memory `sc_str_copy_n` writes through a NULL pointer.
  pub str_copy_n-fault :
      k.grants (malloc (copy_size (length a)) ∷ w.trace) ≡ false
      → str_copy_n k (at b (a ++ r)) (length a) w ≡ fault
  unfolding str_copy_n alloc
  str_copy_n-fault refused = rw refused refl

-- A fresh block can be given back, and then the same blocks are live as before.
pub release-mark :
    (w : World) (b : ℕ) (w' : World)
    → w.live b ≡ false
    → w'.live ≡ mark w.live b true
    → Returns (λ _ v. ((x : ℕ) → v.live x ≡ w.live x) × (v.mgr ≡ w'.mgr)) (release b w')
unfolding release
release-mark w b w' unused e =
    let held : w'.live b ≡ true = rw e (ground arith) in
    rw held (returns ((λ x. rw e (ground arith)), refl))

-- Copying a C string into memory that is granted gives a string that holds the same bytes up to
-- the NUL in a block that was unused, and freeing the copy frees that block and no other.
pub str_free-str_copy :
    (k : Kernel) (w : World) (b : Option ℕ) (a r : Bytes)
    → IsText a
    → w.live w.next_block ≡ false
    → k.grants (malloc (copy_size (length a)) ∷ w.trace) ≡ true
    → Returns (λ s v. Holds s a × (v.live w.next_block ≡ true)) (str_copy k (at b (a ++ 0 ∷ r)) w)
      × Returns
          (λ _ v. ((x : ℕ) → v.live x ≡ w.live x) × (v.mgr ≡ w.mgr))
          (and_then (str_copy k (at b (a ++ 0 ∷ r)) w) str_free)
unfolding str_copy str_free
str_free-str_copy k w b a r text unused got =
    rw (strlen-append a r text, str_copy_n-copied k w b a (0 ∷ r) got)
      (
        returns (
          record { block = some w.next_block; rest = 0 ∷ []; buf = refl; len = refl },
          ground arith,
        ),
        release-mark w w.next_block (after_copy w (copy_size (length a))) unused refl,
      )

-- A copy takes one block.
pub after_copy-Holding :
    (w v : World) (bs : List ℕ) (n : ℕ)
    → Holding w bs v
    → Holding w (v.next_block ∷ bs) (after_copy v n)
after_copy-Holding w v bs n h =
    Holding-take w v (after_copy v n) bs v.next_block h (omega arith) (λ a. refl)
      (λ a le. ground (arith, h.fresh a)) refl

-- A copy always ends.
pub str_copy_n-Halts :
    (k : Kernel) (b : Buffer) (n : ℕ) (w : World) (fd : ℤ) (m : ℕ)
    → m ≤ count_reads fd w.trace
    → Halts (Past fd m) (str_copy_n k b n w)
unfolding str_copy_n
str_copy_n-Halts k b n w fd m h = and_then-Halts (alloc-Halts k _ w fd m h) λ r v g.
    and_then-Halts (need-Halts {P = Past fd m} r v (λ a. g)) λ a u f.
      and_then-Halts (need-Halts {P = Past fd m} (take_exact n (readable b)) u (λ s. f))
        λ s x e. halts e
