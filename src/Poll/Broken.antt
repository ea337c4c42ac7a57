-- ===== src/Poll/Broken.antt =====
-- A readable connection whose client breaks off after some of its headers.
use sculpt.Request.Wire.{Fits, IsLine-Fits, stacked-Texts, stacked, length-stacked}
use sculpt.Base.{
  ℕ, ℤ, ◌+◌, ◌≡◌, ◌<◌, refl, true, some, List, [], ◌∷◌, ◌++◌, Bytes, length, All, ◌∙◌, ap, sym,
  subst, get_elem?, get_elem?-set_self, lt_of_get_elem?, set, arith,
}
use sculpt.Machine.{Conn, Kernel, World, Mgr, fault}
use sculpt.Machine.Reads.{count_reads, Feeds}
use sculpt.Machine.Holding.{Fresh, Holding-Live, Live-front, Distinct-front}
use sculpt.Machine.Returns.{and_then-fault}
use sculpt.Str.Order.{IsByte}
use sculpt.Code.{header_parse_err}
use sculpt.Headers.Append.{Generous}
use sculpt.Headers.Free.{headers_free-Without, headers_free-dead}
use sculpt.Pool.{is_active}
use sculpt.Pool.Valid.{Valid}
use sculpt.Pool.Slots.{load_conn-ok}
use sculpt.Endpoints.Dispatch.{Safe, dispatch-Dispatched, answered-dead}
use sculpt.Request.{Request, max_header_error_count}
use sculpt.Request.Loaded.{length-HoldTexts}
use sculpt.Request.Received.{IsRequest, Received}
use sculpt.Request.Broken.{Broken, cut_request, parse_all_headers-Broken}
use sculpt.Poll.{answer, serve, log_request, blank_request}
use sculpt.Poll.Close.{touched, touched_world, touch-ok}

module _ (k : Kernel) (i : ℕ) (cs : List Conn) (c : Conn) (fd : ℤ) (method uri : Bytes)
    (b : All IsByte uri) (ls : List Bytes) where
  -- An error with headers: they are freed twice.
  answer_twice-fault :
      (w u : World) (q r : Request)
      → 0 < length ls
      → All (Safe k 0 uri) w.mgr.endpoints
      → w.mgr.pool.conns ≡ some cs
      → get_elem? cs i ≡ some c
      → Received header_parse_err w fd method uri ls q r u
      → All Fits ls
      → answer k i r u ≡ fault
  unfolding answer log_request
  answer_twice-fault w u q r nonempty routes array at_i d fits =
      let base = d.method_block ∷ (d.uri_block ∷ []) in
      let (apart, m_out, u_out, ne) =
        Distinct-front d.blocks d.method_block d.uri_block d.holding.distinct in
      let live = Live-front u.live d.blocks base (Holding-Live w u (d.blocks ++ base) d.holding) in
      let full : 0 < length r.headers = omega (
        arith,
        nonempty,
        length-HoldTexts r.headers (stacked ls []) d.holds,
        length-stacked ls [],
      ) in
      rw d.ended (
        and_then-fault (headers_free-Without u r.headers d.blocks d.owns apart live.0)
          λ _ v (gone, same, next, _).
            let at_start : v.mgr ≡ w.mgr = same ∙ d.holding.same_mgr in
            let m_live : v.live d.method_block ≡ true = gone d.method_block ∙ rw m_out live.1.0 in
            let u_live : v.live d.uri_block ≡ true = gone d.uri_block ∙ rw u_out live.1.1.0 in
            rw
              (
                d.method_text,
                d.uri_text,
                load_conn-ok v cs i c (ap (λ (m : Mgr). m.pool.conns) at_start ∙ array) at_i,
              )
              (and_then-fault
                (dispatch-Dispatched c.fd r.http_msg r.headers k 0 uri d.uri_holds b d.uri_block
                  d.method_block v (stacked ls []) d.holds (stacked-Texts ls fits)
                  (λ a le. ground (arith, gone a, d.holding.fresh a, next, le))
                  (subst (λ (m : Mgr). All (Safe k 0 uri) m.endpoints) (sym at_start) routes)
                  d.owns_uri d.owns_method u_live m_live ne)
                λ _ x (found, first, (z, visit, eq)).
                  rw
                    (headers_free-dead x r.headers d.blocks full d.owns λ a e.
                      ap (λ (y : World). y.live a) eq
                      ∙ answered-dead c.fd r.http_msg r.headers found d.uri_block d.method_block v z
                          a visit (gone a ∙ rw e refl))
                    refl))

module _ (k : Kernel) (w : World) (cs : List Conn) (free : List ℕ) (i : ℕ) (c : Conn)
    (valid : Valid w.mgr.pool cs free) (at_i : get_elem? cs i ≡ some c)
    (on : is_active c.state ≡ true) (method uri : Bytes) (b : All IsByte uri)
    (routes : All (Safe k 0 uri) w.mgr.endpoints) where
  -- On a valid pool, with memory granted, paths in the endpoints, and handlers at those that take the URI that end, read nothing,
  -- leave the manager alone and lose no block, where the client of an active connection sends a well-formed request line and
  -- at least one header, and then every read fails, and not because it would block: the part of `sc_mgr_poll` for a
  -- readable connection ends in a fault, as it frees the headers both after the error and at the end.
  pub serve_cut_short :
      (n : ℕ) (rest : Bytes) (ls : List Bytes) (fuel : ℕ)
      → 0 < length ls
      → Generous k
      → Fresh w
      → IsRequest method n uri rest ls
      → Feeds k c.fd (count_reads c.fd w.trace) (cut_request method n uri rest ls)
      → Broken k c.fd (count_reads c.fd w.trace + length (cut_request method n uri rest ls))
      → length ls + max_header_error_count < fuel
      → serve k fuel i w ≡ fault
  unfolding serve
  serve_cut_short n rest ls fuel nonempty generous fresh is feeds broken more =
      let start = touched_world k w cs free i c valid at_i on in
      let latest = touched k w cs free i c valid at_i on in
      let at_latest = get_elem?-set_self cs i latest (lt_of_get_elem? cs i at_i) in
      let q = blank_request (k.stack_msg start.trace) in
      rw (touch-ok k w cs free i c valid at_i on) (
        and_then-fault
          (parse_all_headers-Broken k generous start (set cs i latest) i latest method n uri rest ls
            fuel q refl at_latest fresh is feeds broken more)
          λ r u d.
            answer_twice-fault k i (set cs i latest) latest c.fd method uri b ls start u q r
              nonempty routes refl at_latest d (IsLine-Fits ls is.lines))
