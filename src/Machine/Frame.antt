-- ===== src/Machine/Frame.antt =====
-- Code that changes nothing of the world but the pool, the manager's address and the history.
use sculpt.Base.{arith, ◌≡◌, refl, Option, none, some, ◌∙◌, ap}
use sculpt.Machine.{
  Mgr, Pool, AddrInfo, Call, log, World, Run, ok, fault, out_of_fuel, Cmd, and_then, need,
}
use sculpt.Machine.Holding.{Fresh}
use sculpt.Machine.Since.{Since, Only, now, later, Since-trans}
use sculpt.Machine.Returns.{Returns, returns}

-- The memory and the rest of the manager are the same, and the history has grown.
pub record Framed (w v : World) : Type 0 where
  pub mgr : v.mgr ≡ record (w.mgr) { pool = v.mgr.pool; addr_info = v.mgr.addr_info }
  pub live : v.live ≡ w.live
  pub next_block : v.next_block ≡ w.next_block
  pub since : Since none w.trace v.trace

pub Framed-refl : (w : World) → Framed w w
Framed-refl w = record { mgr = refl; live = refl; next_block = refl; since = now }

pub Framed-trans : (w v u : World) → Framed w v → Framed v u → Framed w u
Framed-trans w v u f g = record {
  mgr =
      g.mgr ∙ ap {A = Mgr} (λ m. record m { pool = u.mgr.pool; addr_info = u.mgr.addr_info }) f.mgr;
  live = g.live ∙ f.live;
  next_block = g.next_block ∙ f.next_block;
  since = Since-trans f.since g.since;
}

pub Framed-log : (w v : World) (c : Call) → Only none c → Framed w v → Framed w (log c v)
Framed-log w v c o f =
    Framed-trans w v (log c v) f
      (record { mgr = refl; live = refl; next_block = refl; since = later o now })

pub Framed-put :
    (w v : World) (p : Pool) (a : AddrInfo)
    → Framed w v
    → Framed w (record v { mgr = record (v.mgr) { pool = p; addr_info = a } })
Framed-put w v p a f =
    Framed-trans w v _ f (record { mgr = refl; live = refl; next_block = refl; since = now })

pub Framed-Fresh : (w v : World) → Framed w v → Fresh w → Fresh v
Framed-Fresh w v f h a le = ap (λ x. x a) f.live ∙ h a (omega (arith, le, f.next_block))

-- If the run ends, it ends in a world framed by `w`. A fault is for other lemmas to rule out.
abbrev pub Ends : {A : Type 0} → World → Run A → Type 0
Ends w (ok a v) = Framed w v
Ends w fault = Unit
Ends w out_of_fuel = Unit

module _ {A B : Type 0} where
  pub Ends-and_then :
      (w : World) (r : Run A) (f : A → Cmd B)
      → Ends w r
      → ((a : A) (v : World) → Framed w v → Ends w (f a v))
      → Ends w (and_then r f)
  Ends-and_then w (ok a v) f e g = g a v e
  Ends-and_then w fault f e g = tt
  Ends-and_then w out_of_fuel f e g = tt

module _ {A : Type 0} where
  pub Ends-need : (w v : World) (o : Option A) → Framed w v → Ends w (need o v)
  Ends-need w v none f = tt
  Ends-need w v (some a) f = f

  pub Ends-from : (w v : World) (r : Run A) → Framed w v → Ends v r → Ends w r
  Ends-from w v (ok a u) f e = Framed-trans w v u f e
  Ends-from w v fault f e = tt
  Ends-from w v out_of_fuel f e = tt

  -- A run that returns, with its frame.
  pub Returns-Ends :
      {P : A → World → Type 0} (w : World) (r : Run A)
      → Returns P r
      → Ends w r
      → Returns (λ a v. P a v × Framed w v) r
  Returns-Ends w (ok a v) (returns p) e = returns (p, e)
  Returns-Ends w fault p e = elim p [ ]
  Returns-Ends w out_of_fuel p e = elim p [ ]
