-- ===== src/Machine/Holding.antt =====
-- The blocks that a piece of work has allocated and not freed, in the order that they were taken.
use sculpt.Base.{
  ◌++◌, ◌||◌, ◌==◌, ℕ, ◌≡◌, ◌≤◌, refl, Bool, true, false, List, [], ◌∷◌, has, Distinct,
  if◌then◌else◌, arith, Bool-cases, inl, inr, clash, ◌∙◌,
}
use sculpt.Machine.{World, Trace}
use sculpt.Machine.Blocks.{Live}

-- Every block in use lies below `next_block`.
abbrev pub Fresh : World → Type 0
Fresh w = (b : ℕ) → w.next_block ≤ b → w.live b ≡ false

-- Since `w` exactly the blocks `bs` were taken, the latest first; the manager is that of `w`.
pub record Holding (w : World) (bs : List ℕ) (v : World) : Type 0 where
  pub live : (b : ℕ) → v.live b ≡ (if has b bs then true else w.live b)
  pub distinct : Distinct bs
  pub fresh : Fresh v
  pub new : (b : ℕ) → has b bs ≡ true → w.live b ≡ false
  pub same_mgr : v.mgr ≡ w.mgr

pub Holding-start : (w : World) → Fresh w → Holding w [] w
Holding-start w f = record {
  live = λ b. refl;
  distinct = tt;
  fresh = f;
  new = λ b e. cc;
  same_mgr = refl;
}

-- A block that is held is not at or above `next_block`.
pub Holding-new :
    (w v : World) (bs : List ℕ) (b : ℕ) → Holding w bs v → v.next_block ≤ b → has b bs ≡ false
Holding-new w v bs b h le = elim (Bool-cases (has b bs)) [
  | inl e ↦ clash (h.live b ∙ rw e refl) (h.fresh b le)
  | inr e ↦ e
]

-- One more block, at or above `next_block`.
pub Holding-take :
    (w v u : World) (bs : List ℕ) (b : ℕ)
    → Holding w bs v
    → v.next_block ≤ b
    → ((a : ℕ) → u.live a ≡ (if a == b then true else v.live a))
    → Fresh u
    → u.mgr ≡ v.mgr
    → Holding w (b ∷ bs) u
Holding-take w v u bs b h le live fresh mgr = record {
  live = λ a. ground (arith, live a, h.live a);
  distinct = (Holding-new w v bs b h le, h.distinct);
  fresh = fresh;
  new = λ a e. ground (arith, e, h.new a, h.live a, h.fresh a);
  same_mgr = mgr ∙ h.same_mgr;
}

-- Two more blocks.
pub Holding-take_two :
    (w v u : World) (bs : List ℕ) (b c : ℕ)
    → Holding w bs v
    → v.next_block ≤ b
    → v.next_block ≤ c
    → has b (c ∷ []) ≡ false
    → ((a : ℕ) → u.live a ≡ (if has a (b ∷ (c ∷ [])) then true else v.live a))
    → Fresh u
    → u.mgr ≡ v.mgr
    → Holding w (b ∷ (c ∷ bs)) u
Holding-take_two w v u bs b c h le le' apart live fresh mgr = record {
  live = λ a. ground (arith, live a, h.live a);
  distinct =
      (ground (arith, apart, Holding-new w v bs b h le), (Holding-new w v bs c h le', h.distinct));
  fresh = fresh;
  new = λ a e. ground (arith, e, h.new a, h.live a, h.fresh a);
  same_mgr = mgr ∙ h.same_mgr;
}

pub Live-of_has :
    (live : ℕ → Bool) (bs : List ℕ) → ((b : ℕ) → has b bs ≡ true → live b ≡ true) → Live live bs
Live-of_has live [] h = tt
Live-of_has live (b ∷ bs) h = (h b (ground arith), Live-of_has live bs (λ c e. h c (ground arith)))

pub Holding-Live : (w v : World) (bs : List ℕ) → Holding w bs v → Live v.live bs
Holding-Live w v bs h = Live-of_has v.live bs λ b e. h.live b ∙ rw e refl

-- Calls that take no block.
pub Holding-log :
    (w v : World) (bs : List ℕ) (t : Trace) → Holding w bs v → Holding w bs (record v { trace = t })
Holding-log w v bs t h = record {
  live = h.live;
  distinct = h.distinct;
  fresh = h.fresh;
  new = h.new;
  same_mgr = h.same_mgr;
}

pub Holding-from :
    (w v : World) (bs : List ℕ) (t : Trace) → Holding (record w { trace = t }) bs v → Holding w bs v
Holding-from w v bs t h = record {
  live = h.live;
  distinct = h.distinct;
  fresh = h.fresh;
  new = h.new;
  same_mgr = h.same_mgr;
}

pub has-append : (a : ℕ) (bs cs : List ℕ) → has a (bs ++ cs) ≡ (has a bs || has a cs)
has-append a [] cs = refl
has-append a (b ∷ bs) cs = ground (arith, has-append a bs cs)

-- What lies in front of two more blocks of a list without repetitions.
pub Distinct-front :
    (bs : List ℕ) (m n : ℕ)
    → Distinct (bs ++ m ∷ (n ∷ []))
    → Distinct bs × (has m bs ≡ false) × (has n bs ≡ false) × ((m == n) ≡ false)
Distinct-front [] m n d = (tt, refl, refl, ground (arith, d))
Distinct-front (b ∷ bs) m n (out, d) =
    let (d', m_out, n_out, ne) = Distinct-front bs m n d in
    let all = has-append b bs (m ∷ (n ∷ [])) in ((ground arith, d'), ground arith, ground arith, ne)

pub Live-front :
    (live : ℕ → Bool) (bs cs : List ℕ) → Live live (bs ++ cs) → Live live bs × Live live cs
Live-front live [] cs l = (tt, l)
Live-front live (b ∷ bs) cs (l, ls) = let rest = Live-front live bs cs ls in ((l, rest.0), rest.1)

pub has-Live :
    (live : ℕ → Bool) (bs : List ℕ) (b : ℕ) → Live live bs → has b bs ≡ true → live b ≡ true
has-Live live [] b l e = cc
has-Live live (c ∷ bs) b (l, ls) e = ground (arith, l, e, has-Live live bs b ls)

-- A block that has been taken since `w` is none of those that were live in `w`.
pub Holding-apart :
    (w v : World) (bs cs : List ℕ) (b : ℕ)
    → Holding w bs v
    → Live w.live cs
    → has b bs ≡ true
    → has b cs ≡ false
Holding-apart w v bs cs b h l e = elim (Bool-cases (has b cs)) [
  | inl x ↦ clash (has-Live w.live cs b l x) (h.new b e)
  | inr x ↦ x
]

-- What was live stays live.
pub Holding-keeps :
    (w v : World) (bs cs : List ℕ) → Holding w bs v → Live w.live cs → Live v.live cs
Holding-keeps w v bs [] h l = tt
Holding-keeps w v bs (c ∷ cs) h (l, ls) =
    (ground (arith, h.live c, l), Holding-keeps w v bs cs h ls)
