-- ===== src/Poll/Serve.antt =====
-- A readable connection whose client sends a whole request.
use sculpt.Base.{
  has, false, arith, subst, ℕ, ◌≡◌, ◌<◌, refl, Bool, true, Option, some, List, [], ◌∷◌, ◌++◌, Bytes,
  All, ◌∙◌, ap, sym, get_elem?, get_elem?-set_self, lt_of_get_elem?, set, length,
}
use sculpt.Machine.{Conn, Kernel, HttpMsg, Header, Endpoint, Mgr, World}
use sculpt.Machine.Reads.{count_reads, Feeds}
use sculpt.Machine.Holding.{has-append, Fresh, Holding, Holding-Live, Live-front, Distinct-front}
use sculpt.Machine.Since.{Since, now, later, Since-trans, Since-some, Since-more}
use sculpt.Machine.Returns.{Returns, and_then-Returns, Returns-mono}
use sculpt.Str.{Holds, readable}
use sculpt.Str.Order.{IsByte}
use sculpt.Text.{c_string, IsText, Short}
use sculpt.Code.{ok_code}
use sculpt.Headers.Append.{Generous}
use sculpt.Headers.Free.{Owns, block_of}
use sculpt.Pool.{is_active}
use sculpt.Pool.Valid.{Valid}
use sculpt.Pool.Slots.{load_conn-ok}
use sculpt.Machine.Occurs.{Occurs, Occurs-later}
use sculpt.Endpoints.Lookup.{First}
use sculpt.Endpoints.Dispatch.{Safe, reply, dispatch-Dispatched}
use sculpt.Request.{Request, parse_all_headers}
use sculpt.Request.Wire.{Fits, IsLine-Fits, stacked-Texts, stacked, asks_keep_alive}
use sculpt.Request.Loaded.{HoldTexts}
use sculpt.Request.Received.{IsRequest, Received, request, parse_all_headers-Received}
use sculpt.Poll.{answer, serve, log_request, blank_request}
use sculpt.Poll.Close.{touched, touched_world, touch-ok, touched-Valid}
use sculpt.Poll.Memory.{Leaves, Leaves-same, headers_free-Leaves}
use sculpt.Poll.Ending.{Ending, end-Ending}

module _ (k : Kernel) (left : ℕ) (w : World) (cs : List Conn) (free : List ℕ) (i : ℕ)
    (c : Conn) where
  -- A request that has been answered.
  pub record Answered (keep : Bool) (uri method : Bytes) (texts : List Bytes) (b : All IsByte uri)
      (v : World) : Type 0 where
    pub msg : HttpMsg
    pub headers : List Header
    pub uri_holds : Holds msg.uri uri
    pub method_holds : Holds msg.method method
    pub texts_hold : HoldTexts headers texts
    pub found : Option Endpoint
    pub first : First msg.uri uri uri_holds b w.mgr.endpoints found
    pub replied : Occurs (reply c.fd msg headers found) v.trace
    pub uri_block : ℕ
    pub method_block : ℕ
    pub memory : Leaves left w found uri_block method_block v
    pub unused : (a : ℕ) → has a (method_block ∷ (uri_block ∷ [])) ≡ true → w.live a ≡ false
    pub ending : Ending k w.mgr.epoll_fd cs free i c.fd keep v
    pub rest : v.mgr ≡ record (w.mgr) { pool = v.mgr.pool }
    pub fresh : Fresh v
    pub since : Since (some c.fd) w.trace v.trace

module _ (k : Kernel) (w : World) (cs : List Conn) (free : List ℕ) (i : ℕ) (c : Conn)
    (valid : Valid w.mgr.pool cs free) (at_i : get_elem? cs i ≡ some c)
    (on : is_active c.state ≡ true) (method uri : Bytes) (b : All IsByte uri) (left : ℕ)
    (routes : All (Safe k left uri) w.mgr.endpoints) where
  abbrev pub start : World
  start = touched_world k w cs free i c valid at_i on

  abbrev pub latest : Conn
  latest = touched k w cs free i c valid at_i on

  pub at_latest : get_elem? (set cs i latest) i ≡ some latest
  at_latest = get_elem?-set_self cs i latest (lt_of_get_elem? cs i at_i)

  answer-Answered :
      (u : World) (msg : HttpMsg) (headers : List Header) (keep : Bool) (texts : List Bytes)
      (blocks : List ℕ) (ub mb : ℕ)
      → u.mgr ≡ start.mgr
      → Since (some c.fd) w.trace u.trace
      → Holds msg.uri uri
      → Holds msg.method method
      → c_string (readable msg.uri.buf) ≡ some uri
      → c_string (readable msg.method.buf) ≡ some method
      → block_of msg.uri.buf ≡ some ub
      → block_of msg.method.buf ≡ some mb
      → HoldTexts headers texts
      → All IsText texts × Short texts
      → Owns headers blocks
      → Holding start (blocks ++ mb ∷ (ub ∷ [])) u
      → Returns
          (λ _ v. Answered k left w cs free i c keep uri method texts b v)
          (answer k i
            (record { code = ok_code; headers = headers; http_msg = msg; keep_alive = keep })
            u)
  unfolding answer log_request
  answer-Answered u msg headers keep texts blocks ub mb same since uh mh ut mt uo mo th good owns
        h =
      let valid' = touched-Valid k w cs free i c valid at_i on in
      let array : u.mgr.pool.conns ≡ some (set cs i latest) = ap (λ m. m.pool.conns) same in
      let live =
        (Live-front u.live blocks (mb ∷ (ub ∷ []))
          (Holding-Live start u (blocks ++ mb ∷ (ub ∷ [])) h)).1 in
      let (_, _, _, apart) = Distinct-front blocks mb ub h.distinct in
      rw (mt, ut, load_conn-ok u (set cs i latest) i latest array at_latest)
        (and_then-Returns
          (dispatch-Dispatched c.fd msg headers k left uri uh b ub mb u texts th good h.fresh
            (subst (λ (m : Mgr). All (Safe k left uri) m.endpoints) (sym same) routes) uo mo
            live.1.0 live.0 apart)
          λ _ x (found, first, (z, visit, eq)). rw eq (
            and_then-Returns
              (headers_free-Leaves start u blocks ub mb h c.fd msg headers left found z visit owns)
              λ _ y (memory, mgr, replied, freed, fresh).
                let at_start = mgr ∙ same in
                Returns-mono
                  (end-Ending k y cs free i latest keep
                    (subst (λ (m : Mgr). Valid m.pool (set cs i latest) free) (sym at_start) valid')
                    at_latest on)
                  λ _ v (ending, frame, ended).
                    let (more, trace) = Since-more ended in
                    record {
                      msg = msg;
                      headers = headers;
                      uri_holds = uh;
                      method_holds = mh;
                      texts_hold = th;
                      found = found;
                      first =
                          subst (λ (m : Mgr). First msg.uri uri uh b m.endpoints found) same first;
                      replied = Occurs-later _ v.trace more y.trace trace replied;
                      uri_block = ub;
                      method_block = mb;
                      unused =
                          λ a x. h.new a (ground (arith, x, has-append a blocks (mb ∷ (ub ∷ []))));
                      memory =
                          Leaves-same left w start found ub mb y v refl (ap (λ x. x.live) frame)
                            memory;
                      ending =
                          subst (λ (m : Mgr). Ending k m.epoll_fd cs free i c.fd keep v) at_start
                            ending;
                      rest =
                          ap (λ x. x.mgr) frame
                          ∙ ap (λ (m : Mgr). record m { pool = v.mgr.pool }) at_start;
                      fresh = λ a le.
                          ap (λ x. x.live a) frame
                          ∙ fresh a (omega (arith, le, ap (λ x. x.next_block) frame));
                      since = Since-trans since (Since-some c.fd (Since-trans freed ended));
                    }))

  -- Whatever request `parse_all_headers` makes of what has come.
  pub serve-Received :
      (ls : List Bytes) (fuel : ℕ)
      → All Fits ls
      → Returns
          (Received ok_code start c.fd method uri ls (blank_request (k.stack_msg start.trace)))
          (parse_all_headers k fuel i (blank_request (k.stack_msg start.trace)) start)
      → Returns
          (λ _ v. Answered k left w cs free i c (asks_keep_alive ls) uri method (stacked ls []) b v)
          (serve k fuel i w)
  unfolding serve
  serve-Received ls fuel fits received = rw (touch-ok k w cs free i c valid at_i on) (
      and_then-Returns received λ q u r.
        subst
          (λ (x : Request).
            Returns
              (λ _ v.
                Answered k left w cs free i c (asks_keep_alive ls) uri method (stacked ls []) b v)
              (answer k i x u))
          (λ j. record q { code = sym r.ended j; keep_alive = sym r.keep j })
          (answer-Answered u q.http_msg q.headers (asks_keep_alive ls) (stacked ls []) r.blocks
            r.uri_block r.method_block r.holding.same_mgr (Since-trans (later tt now) r.since)
            r.uri_holds r.method_holds r.uri_text r.method_text r.owns_uri r.owns_method r.holds
            (stacked-Texts ls fits) r.owns r.holding))

  -- With memory granted and the pool valid, where the client of an active connection sends a well-formed request with
  -- any number of headers, the endpoints have paths, and the handlers of those that take the URI end, read nothing, leave the
  -- manager alone and lose at most `left` blocks, the part of `sc_mgr_poll` for a readable connection ends without a
  -- fault. The first endpoint that takes the URI has its handler called with the URI, the method and the headers, and then
  -- everything but at most `left` blocks has been freed; if none takes it the answer is 404, and only the message stays
  -- allocated. If a header asks to keep the connection it waits in epoll for the next request, unless epoll refuses;
  -- otherwise it is closed and its slot heads the free list. The pool is valid and the rest of the manager is as it was.
  pub serve-Answered :
      (n : ℕ) (rest : Bytes) (ls : List Bytes) (fuel : ℕ)
      → Generous k
      → Fresh w
      → IsRequest method n uri rest ls
      → Feeds k c.fd (count_reads c.fd w.trace) (request method n uri rest ls)
      → length ls < fuel
      → Returns
          (λ _ v. Answered k left w cs free i c (asks_keep_alive ls) uri method (stacked ls []) b v)
          (serve k fuel i w)
  serve-Answered n rest ls fuel generous fresh is feeds more =
      serve-Received ls fuel (IsLine-Fits ls is.lines) (
        parse_all_headers-Received k generous start (set cs i latest) i latest method n uri rest ls
          fuel _ refl at_latest fresh is feeds more)
