-- ===== src/Machine/Lost.antt =====
-- Blocks that a piece of work has taken and never gives back.
use sculpt.Base.{
  refl, ◌∙◌, ℕ, ◌+◌, ◌≡◌, ◌≤◌, true, false, List, [], ◌∷◌, ◌++◌, has, length, length-append,
  if◌then◌else◌, arith, ap,
}
use sculpt.Machine.{World}
use sculpt.Machine.Blocks.{Live}
use sculpt.Machine.Holding.{has-append}

-- Since `w` at most `n` blocks were lost, none of them live in `w`, and the other blocks are as they were.
pub record Lost (w : World) (n : ℕ) (v : World) : Type 0 where
  pub blocks : List ℕ
  pub count : length blocks ≤ n
  pub live : (a : ℕ) → v.live a ≡ (if has a blocks then true else w.live a)
  pub new : (a : ℕ) → has a blocks ≡ true → w.live a ≡ false

pub Lost-none : (w v : World) → v.live ≡ w.live → Lost w 0 v
Lost-none w v e = record {
  blocks = [];
  count = omega arith;
  live = λ a. ap (λ x. x a) e;
  new = λ a h. cc;
}

pub Lost-le : (w v : World) (n m : ℕ) → n ≤ m → Lost w n v → Lost w m v
Lost-le w v n m h l = record {
  blocks = l.blocks;
  count = omega (arith, h, l.count);
  live = l.live;
  new = l.new;
}

pub Lost-trans : (w v u : World) (n m : ℕ) → Lost w n v → Lost v m u → Lost w (n + m) u
Lost-trans w v u n m l k = record {
  blocks = k.blocks ++ l.blocks;
  count = omega (arith, length-append k.blocks l.blocks, l.count, k.count);
  live = λ a. ground (arith, k.live a, l.live a, has-append a k.blocks l.blocks);
  new = λ a h. ground (arith, h, k.new a, l.new a, l.live a, has-append a k.blocks l.blocks);
}

-- What was live stays live.
pub Lost-Live : (w v : World) (n : ℕ) (bs : List ℕ) → Lost w n v → Live w.live bs → Live v.live bs
Lost-Live w v n [] l h = tt
Lost-Live w v n (b ∷ bs) l (e, h) = (ground (arith, l.live b, e), Lost-Live w v n bs l h)

-- Nothing was lost.
pub Lost-zero : (w v : World) → Lost w 0 v → (a : ℕ) → v.live a ≡ w.live a
Lost-zero w v l a = l.live a ∙ none_of l.blocks l.count
  where
    none_of : (bs : List ℕ) → length bs ≤ 0 → (if has a bs then true else w.live a) ≡ w.live a
    none_of [] h = refl
    none_of (b ∷ bs) h = absurd (omega (arith, h))
