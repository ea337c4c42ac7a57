-- ===== src/Endpoints/Dispatch.antt =====
-- What the search of `sc_mgr_poll` leads to.
use sculpt.Machine.Since.{Since}
use sculpt.Machine.Lost.{Lost, Lost-zero}
use sculpt.Machine.Holding.{Fresh}
use sculpt.Request.Loaded.{HoldTexts}
use sculpt.Text.{IsText, Short}
use sculpt.Base.{
  ap, ◌∙◌, [], ◌∷◌, ◌++◌, subst, ℕ, ◌≡◌, refl, true, false, Option, none, some, List, Bytes, All,
  ◌==◌, arith, ℤ,
}
use sculpt.Machine.{Kernel, Endpoint, HttpMsg, Header, World, log, send, handler, Call}
use sculpt.Machine.Blocks.{released_block, release-ok}
use sculpt.Machine.Returns.{Returns, returns, and_then-Returns}
use sculpt.Str.{Holds}
use sculpt.Str.Order.{IsByte}
use sculpt.Headers.Free.{block_of, str_free-release}
use sculpt.Endpoints.{dispatch, respond, response_404}
use sculpt.Endpoints.Lookup.{First, Takes, IsRoute, find_endpoint-First}

-- What a handler may do: it makes calls that read nothing, leaves the manager alone, and at most `n` blocks stay allocated.
pub record Modest (n : ℕ) (w v : World) : Type 0 where
  pub same_mgr : v.mgr ≡ w.mgr
  pub since : Since none w.trace v.trace
  pub lost : Lost w n v
  pub fresh : Fresh v

-- A handler that ends without a fault and is modest, for headers that hold texts.
abbrev pub Tame : Kernel → ℕ → ℕ → Type 0
Tame k n f =
    (fd : ℤ) (msg : HttpMsg) (headers : List Header) (ts : List Bytes) (w : World)
    → Fresh w
    → HoldTexts headers ts
    → All IsText ts
    → Short ts
    → Returns (λ _ v. Modest n w v) (k.run_handler f fd msg headers w)

-- The endpoint has a path, and if it takes the URI its handler is tame.
abbrev pub Safe : Kernel → ℕ → Bytes → Endpoint → Type 0
Safe k n u e =
    IsRoute e × ((path : Bytes) → Holds e.val path → Takes e.soft path u → Tame k n e.func)

Safe-IsRoute :
    (k : Kernel) (n : ℕ) (u : Bytes) (es : List Endpoint) → All (Safe k n u) es → All IsRoute es
Safe-IsRoute k n u [] h = tt
Safe-IsRoute k n u (e ∷ es) (h, hs) = (h.0, Safe-IsRoute k n u es hs)

Safe-at :
    (k : Kernel) (n : ℕ) (u : Bytes) (before : List Endpoint) (e : Endpoint) (after : List Endpoint)
    → All (Safe k n u) (before ++ e ∷ after)
    → Safe k n u e
Safe-at k n u [] e after h = h.0
Safe-at k n u (x ∷ before) e after h = Safe-at k n u before e after h.1

module _ (fd : ℤ) (msg : HttpMsg) (headers : List Header) where
  -- The call that a request leads to.
  abbrev pub reply : Option Endpoint → Call
  reply none = send fd response_404
  reply (some e) = handler e.func fd msg headers

  -- The world in which the reply has been made; a handler has run to its end.
  abbrev pub Replied : ℕ → Option Endpoint → World → World → Type 0
  Replied n none w x = x ≡ log (send fd response_404) w
  Replied n (some e) w x = Modest n (log (handler e.func fd msg headers) w) x

  -- A request that was handled then has its message freed; one that was answered 404 has not.
  abbrev pub answered : Option Endpoint → ℕ → ℕ → World → World
  answered none ub mb x = x
  answered (some e) ub mb x = released_block (released_block x ub) mb

  -- Where the handler leaves nothing allocated, what was free is free.
  pub answered-dead :
      (found : Option Endpoint) (ub mb : ℕ) (w x : World) (a : ℕ)
      → Replied 0 found w x
      → w.live a ≡ false
      → (answered found ub mb x).live a ≡ false
  answered-dead none ub mb w x a eq dead = ap (λ (y : World). y.live a) eq ∙ dead
  answered-dead (some e) ub mb w x a m dead =
      ground (arith, Lost-zero (log (handler e.func fd msg headers) w) x m.lost a, dead)

  module _ (k : Kernel) (n : ℕ) (u : Bytes) (h : Holds msg.uri u) (b : All IsByte u) (ub mb : ℕ)
      (w : World) where
    abbrev pub Dispatched : World → Type 0
    Dispatched v =
        (found : Option Endpoint) × First msg.uri u h b w.mgr.endpoints found
        × ((x : World) × Replied n found w x × (v ≡ answered found ub mb x))

    respond-Dispatched :
        (found : Option Endpoint) (ts : List Bytes)
        → HoldTexts headers ts
        → All IsText ts × Short ts
        → Fresh w
        → block_of msg.uri.buf ≡ some ub
        → block_of msg.method.buf ≡ some mb
        → w.live ub ≡ true
        → w.live mb ≡ true
        → (mb == ub) ≡ false
        → First msg.uri u h b w.mgr.endpoints found
        → All (Safe k n u) w.mgr.endpoints
        → Returns (λ _ v. Dispatched v) (respond k fd msg headers found w)
    unfolding respond
    respond-Dispatched none ts holds texts fresh owns owns' l l' apart first safe =
        returns (none, first, (_, refl, refl))
    respond-Dispatched (some e) ts holds texts fresh owns owns' l l' apart first safe =
        let (before, after, eq, _, (path, g, took)) = first in
        let at_e = Safe-at k n u before e after (subst (All (Safe k n u)) eq safe) in
        and_then-Returns
          (at_e.1 path g took fd msg headers ts (log (handler e.func fd msg headers) w) fresh holds
            texts.0 texts.1)
          λ _ x m.
            let l1 : x.live ub ≡ true = m.lost.live ub ∙ ground arith in
            let l2 : x.live mb ≡ true = m.lost.live mb ∙ ground arith in
            let y = released_block x ub in
            let l3 : y.live mb ≡ true = ground arith in
            rw
              (
                str_free-release msg.uri ub x owns,
                release-ok x ub l1,
                str_free-release msg.method mb y owns',
                release-ok y mb l3,
              )
              (returns (some e, first, (x, m, refl)))

    pub dispatch-Dispatched :
        (ts : List Bytes)
        → HoldTexts headers ts
        → All IsText ts × Short ts
        → Fresh w
        → All (Safe k n u) w.mgr.endpoints
        → block_of msg.uri.buf ≡ some ub
        → block_of msg.method.buf ≡ some mb
        → w.live ub ≡ true
        → w.live mb ≡ true
        → (mb == ub) ≡ false
        → Returns (λ _ v. Dispatched v) (dispatch k fd msg headers w)
    unfolding dispatch
    dispatch-Dispatched ts holds texts fresh safe owns owns' l l' apart =
        let (found, eq, first) =
          find_endpoint-First msg.uri u h b w.mgr.endpoints
            (Safe-IsRoute k n u w.mgr.endpoints safe) in
        rw eq (respond-Dispatched found ts holds texts fresh owns owns' l l' apart first safe)
