-- ===== src/Machine/Blocks.antt =====
-- Blocks that are live, and what freeing one of them does.
use sculpt.Base.{ℕ, ◌≡◌, refl, Bool, true, false, List, [], ◌∷◌, has, arith}
use sculpt.Machine.{World, free, ok, fault}
use sculpt.Machine.Heap.{mark, release}

-- All of the blocks are live.
abbrev pub Live : (ℕ → Bool) → List ℕ → Type 0
Live live [] = Unit
Live live (b ∷ bs) = (live b ≡ true) × Live live bs

abbrev pub released_block : World → ℕ → World
released_block w b = record w { trace = free b ∷ w.trace; live = mark w.live b false }

pub release-ok : (w : World) (b : ℕ) → w.live b ≡ true → release b w ≡ ok tt (released_block w b)
unfolding release
release-ok w b h = rw h refl

pub release-fault : (w : World) (b : ℕ) → w.live b ≡ false → release b w ≡ fault
unfolding release
release-fault w b h = rw h refl

pub Live-mark :
    (live : ℕ → Bool) (b : ℕ) (bs : List ℕ)
    → has b bs ≡ false
    → Live live bs
    → Live (mark live b false) bs
Live-mark live b [] out l = tt
Live-mark live b (c ∷ bs) out l = (ground arith, Live-mark live b bs (ground arith) l.1)
