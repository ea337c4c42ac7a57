-- ===== src/Poll/Memory.antt =====
-- The memory of a request that has been answered.
use sculpt.Base.{
  sym, ◌+◌, ap, ◌∙◌, ℕ, ◌≡◌, refl, true, false, Option, none, some, List, [], ◌∷◌, ◌++◌, arith, ℤ,
  has, if◌then◌else◌, inl,
}
use sculpt.Endpoints.{response_404}
use sculpt.Machine.{log, send, handler, HttpMsg, Header, Endpoint, World}
use sculpt.Machine.Heap.{mark}
use sculpt.Machine.Blocks.{Live-mark}
use sculpt.Machine.Holding.{Fresh, Holding, Holding-Live, Live-front, Distinct-front, has-append}
use sculpt.Machine.Lost.{Lost, Lost-le, Lost-Live}
use sculpt.Machine.Since.{Since, now, later, Since-trans, Since-more}
use sculpt.Machine.Returns.{Returns, Returns-mono}
use sculpt.Headers.Free.{Owns, headers_free-Without}
use sculpt.Machine.Occurs.{Occurs, Occurs-later}
use sculpt.Endpoints.Dispatch.{reply, answered, Replied}
use sculpt.Headers.{headers_free}

-- The memory at the end: as before but for at most `n` blocks of the handler, or, after a 404, with the message still allocated.
abbrev pub Leaves : ℕ → World → Option Endpoint → (ub mb : ℕ) → World → Type 0
Leaves n w none ub mb v = (a : ℕ) → v.live a ≡ (if has a (mb ∷ (ub ∷ [])) then true else w.live a)
Leaves n w (some e) ub mb v = Lost w n v

pub Leaves-same :
    (n : ℕ) (w z : World) (found : Option Endpoint) (ub mb : ℕ) (u v : World)
    → z.live ≡ w.live
    → v.live ≡ u.live
    → Leaves n z found ub mb u
    → Leaves n w found ub mb v
Leaves-same n w z none ub mb u v d e h = λ a.
    ap (λ live. live a) e ∙ h a ∙ ap (λ live. if has a (mb ∷ (ub ∷ [])) then true else live a) d
Leaves-same n w z (some x) ub mb u v d e h = record {
  blocks = h.blocks;
  count = h.count;
  live = λ a.
      ap (λ live. live a) e ∙ h.live a ∙ ap (λ live. if has a h.blocks then true else live a) d;
  new = λ a y. ap (λ live. live a) (sym d) ∙ h.new a y;
}

pub Leaves-Lost :
    (n : ℕ) (w : World) (found : Option Endpoint) (ub mb : ℕ) (v : World)
    → ((a : ℕ) → has a (mb ∷ (ub ∷ [])) ≡ true → w.live a ≡ false)
    → Leaves n w found ub mb v
    → Lost w (2 + n) v
Leaves-Lost n w none ub mb v new h = record {
  blocks = mb ∷ (ub ∷ []);
  count = omega arith;
  live = h;
  new = new;
}
Leaves-Lost n w (some e) ub mb v new h = Lost-le w v n (2 + n) (omega arith) h

module _ (w u : World) (blocks : List ℕ) (ub mb : ℕ) (h : Holding w (blocks ++ mb ∷ (ub ∷ [])) u)
    (fd : ℤ) (msg : HttpMsg) (headers : List Header) where
  -- Freeing the headers behind the dispatch.
  pub headers_free-Leaves :
      (n : ℕ) (found : Option Endpoint) (x : World)
      → Replied fd msg headers n found u x
      → Owns headers blocks
      → Returns
          (λ _ v.
            Leaves n w found ub mb v
            × (v.mgr ≡ u.mgr)
            × Occurs (reply fd msg headers found) v.trace
            × Since none u.trace v.trace
            × Fresh v)
          (headers_free headers (answered fd msg headers found ub mb x))
  headers_free-Leaves n none x sent owns =
      let (apart, m_out, u_out, ne) = Distinct-front blocks mb ub h.distinct in
      let live = Holding-Live w u (blocks ++ mb ∷ (ub ∷ [])) h in
      rw sent (
        Returns-mono
          (headers_free-Without (log (send fd response_404) u) headers blocks owns apart
            (Live-front u.live blocks (mb ∷ (ub ∷ [])) live).0)
          λ _ v (gone, same, next, since).
            let (more, trace) = Since-more since in
            (
              (λ a. ground (
                arith,
                gone a,
                h.live a,
                h.new a,
                has-append a blocks (mb ∷ (ub ∷ [])),
                m_out,
                u_out,
              )),
              same,
              Occurs-later _ v.trace more _ trace (inl refl),
              Since-trans (later tt now) since,
              λ a le. ground (arith, gone a, h.fresh a, next, le),
            ))
  headers_free-Leaves n (some e) x m owns =
      let (apart, m_out, u_out, ne) = Distinct-front blocks mb ub h.distinct in
      let called = log (handler e.func fd msg headers) u in
      let live =
        Lost-Live called x n blocks m.lost
          (Live-front u.live blocks (mb ∷ (ub ∷ []))
            (Holding-Live w u (blocks ++ mb ∷ (ub ∷ [])) h)).0 in
      let freed = mark x.live ub false in
      Returns-mono
        (headers_free-Without (answered fd msg headers (some e) ub mb x) headers blocks owns apart
          (Live-mark freed mb blocks m_out (Live-mark x.live ub blocks u_out live)))
        λ _ v (gone, same, next, since).
          let ended : Since none called.trace v.trace =
            Since-trans m.since (Since-trans (later tt (later tt now)) since) in
          let (more, trace) = Since-more ended in
          (
            record {
              blocks = m.lost.blocks;
              count = m.lost.count;
              live = λ a. ground (
                arith,
                gone a,
                m.lost.live a,
                m.lost.new a,
                h.live a,
                h.new a,
                has-append a blocks (mb ∷ (ub ∷ [])),
                m_out,
                u_out,
              );
              new = λ a e. ground (arith, m.lost.new a e, h.live a);
            },
            same ∙ m.same_mgr,
            Occurs-later _ v.trace more _ trace (inl refl),
            Since-trans (later tt now) ended,
            λ a le. ground (arith, gone a, m.fresh a, next, le),
          )
