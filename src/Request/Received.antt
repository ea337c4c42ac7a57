-- ===== src/Request/Received.antt =====
-- `parse_all_headers` against a client that sends a whole request.
use sculpt.Base.{
  get_elem?, ℕ, ◌≡◌, ◌<◌, ◌+◌, refl, arith, length-append, ◌||◌, none, List, [], ◌∷◌, ◌++◌, Bytes,
  length, All, ◌∙◌, ap, sym, subst, some, ℤ,
}
use sculpt.Pool.Slots.{load_conn-ok}
use sculpt.Message.{method_buf_size, url_buf_size}
use sculpt.Message.RequestLine.{IsWord, request_line, get_http_msg-request_line}
use sculpt.Headers.Free.{block_of, Owns}
use sculpt.Request.{parse_all_headers, parse_line, header_loop, Request}
use sculpt.Machine.{Kernel, World, Conn}
use sculpt.Machine.Reads.{reads, count_reads, count_reads-reads, Feeds}
use sculpt.Machine.Holding.{Holding-from, Fresh, Holding}
use sculpt.Machine.Since.{Since, Since-trans, Since-some, Since-reads}
use sculpt.Machine.Returns.{Returns, and_then-Returns, Returns-mono}
use sculpt.Code.{Code, ok_code}
use sculpt.Str.{Holds, readable}
use sculpt.Headers.Append.{Generous}
use sculpt.Reader.{cr, lf}
use sculpt.Request.Wire.{IsLine, wire, wire_to, stacked, asks_keep_alive}
use sculpt.Text.{IsText, c_string}
use sculpt.Request.Loaded.{Loaded, HoldTexts, next_header-fed_line}
use sculpt.Request.Loop.{header_loop-Loaded}

-- A whole request: a request line, with `n` more spaces before the URI, and the headers.
abbrev pub request : Bytes → ℕ → Bytes → Bytes → List Bytes → Bytes
request method n uri rest ls = request_line method n uri rest ++ cr ∷ lf ∷ [] ++ wire ls

pub record IsRequest (method : Bytes) (n : ℕ) (uri rest : Bytes) (ls : List Bytes) : Type 0 where
  pub method_word : IsWord method_buf_size method
  pub uri_word : IsWord url_buf_size uri
  pub rest_text : IsText rest
  pub first : IsLine (request_line method n uri rest)
  pub lines : All IsLine ls

-- The reading has ended with the code: the message, the headers, the latest first, and the blocks that hold them.
pub record Received (code : Code) (w : World) (fd : ℤ) (method uri : Bytes) (ls : List Bytes)
    (q r : Request) (u : World) : Type 0 where
  pub ended : r.code ≡ code
  pub uri_holds : Holds r.http_msg.uri uri
  pub method_holds : Holds r.http_msg.method method
  pub uri_text : c_string (readable r.http_msg.uri.buf) ≡ some uri
  pub method_text : c_string (readable r.http_msg.method.buf) ≡ some method
  pub keep : r.keep_alive ≡ (q.keep_alive || asks_keep_alive ls)
  pub holds : HoldTexts r.headers (stacked ls [])
  pub uri_block : ℕ
  pub method_block : ℕ
  pub owns_uri : block_of r.http_msg.uri.buf ≡ some uri_block
  pub owns_method : block_of r.http_msg.method.buf ≡ some method_block
  pub blocks : List ℕ
  pub owns : Owns r.headers blocks
  pub holding : Holding w (blocks ++ method_block ∷ (uri_block ∷ [])) u
  pub since : Since (some fd) w.trace u.trace

module _ (k : Kernel) (generous : Generous k) (w : World) (cs : List Conn) (i : ℕ) (c : Conn) where
  -- From the request line on, whatever the loop over the headers ends with.
  pub parse_all_headers-loop :
      (code : Code) (tail : Bytes) (method : Bytes) (n : ℕ) (uri rest : Bytes)
      (ls seen : List Bytes) (fuel : ℕ) (q : Request)
      → w.mgr.pool.conns ≡ some cs
      → get_elem? cs i ≡ some c
      → Fresh w
      → IsRequest method n uri rest ls
      → Feeds k c.fd
          (count_reads c.fd w.trace)
          (request_line method n uri rest ++ cr ∷ lf ∷ [] ++ wire_to ls tail)
      → ((q' : Request) (v : World) (base : List ℕ)
          → q'.headers ≡ []
          → Holding w base v
          → Feeds k c.fd (count_reads c.fd v.trace) (wire_to ls tail)
          → count_reads c.fd v.trace + length (wire_to ls tail)
            ≡ count_reads c.fd w.trace
              + length (request_line method n uri rest ++ cr ∷ lf ∷ [] ++ wire_to ls tail)
          → Returns
              (λ r u.
                (r.code ≡ code) × Loaded w base seen [] q' r u × Since (some c.fd) v.trace u.trace)
              (header_loop k c.fd fuel 0 q' v))
      → Returns (Received code w c.fd method uri seen q) (parse_all_headers k fuel i q w)
  unfolding parse_all_headers parse_line
  parse_all_headers-loop code tail method n uri rest ls seen fuel q array at_i fresh is feeds loop =
      let s = request_line method n uri rest in
      let fed = next_header-fed_line k c.fd s (wire_to ls tail) w is.first feeds in
      let w' = record w { trace = reads c.fd (s ++ cr ∷ lf ∷ []) w.trace } in
      rw (load_conn-ok w cs i c array at_i, fed.0)
        (and_then-Returns
          (get_http_msg-request_line k generous method uri rest n w' none [] is.method_word
            is.uri_word is.rest_text)
          λ p v got.
            let base = got.method_block ∷ (got.uri_block ∷ []) in
            let h : Holding w base v = Holding-from w v base w'.trace (got.taken fresh) in
            rw (got.result) (
              Returns-mono
                (loop _ v base refl h
                  (subst (λ m. Feeds k c.fd m (wire_to ls tail)) (sym (got.quiet c.fd)) fed.1)
                  (omega (
                    arith,
                    got.quiet c.fd,
                    count_reads-reads c.fd (s ++ cr ∷ lf ∷ []) w.trace,
                    length-append (s ++ cr ∷ lf ∷ []) (wire_to ls tail),
                  )))
                λ r u (ended, d, since). record {
                  ended = ended;
                  uri_holds = subst (λ m. Holds m.uri uri) (sym d.msg) got.uri_holds;
                  method_holds = subst (λ m. Holds m.method method) (sym d.msg) got.method_holds;
                  uri_text = ap (λ m. c_string (readable m.uri.buf)) d.msg ∙ got.uri_text;
                  method_text = ap (λ m. c_string (readable m.method.buf)) d.msg ∙ got.method_text;
                  keep = d.keep;
                  holds = d.holds;
                  uri_block = got.uri_block;
                  method_block = got.method_block;
                  owns_uri = ap (λ m. block_of m.uri.buf) d.msg ∙ got.owns_uri;
                  owns_method = ap (λ m. block_of m.method.buf) d.msg ∙ got.owns_method;
                  blocks = d.blocks;
                  owns = d.owns;
                  holding = d.holding;
                  since =
                      Since-trans (Since-reads c.fd (s ++ cr ∷ lf ∷ []) w.trace)
                        (Since-trans (Since-some c.fd got.since) since);
                }))

  -- With memory granted, where the connection in a slot sends a well-formed request line, any number of
  -- header lines that fit into the buffer, and an empty line, `parse_all_headers` ends with SC_OK: the message is the method and
  -- the URI, the headers are the lines with CR LF, the latest first, the connection is kept if it was to be or a line
  -- says so, and exactly the blocks of these strings and nodes have been taken. One round of fuel for each
  -- header and one for the empty line are enough.
  pub parse_all_headers-Received :
      (method : Bytes) (n : ℕ) (uri rest : Bytes) (ls : List Bytes) (fuel : ℕ) (q : Request)
      → w.mgr.pool.conns ≡ some cs
      → get_elem? cs i ≡ some c
      → Fresh w
      → IsRequest method n uri rest ls
      → Feeds k c.fd (count_reads c.fd w.trace) (request method n uri rest ls)
      → length ls < fuel
      → Returns (Received ok_code w c.fd method uri ls q) (parse_all_headers k fuel i q w)
  parse_all_headers-Received method n uri rest ls fuel q array at_i fresh is feeds more =
      parse_all_headers-loop ok_code (cr ∷ lf ∷ []) method n uri rest ls ls fuel q array at_i fresh
        is feeds
        λ q' v base empty h fed _.
          header_loop-Loaded k generous c.fd w base ls fuel q' v is.lines more fed empty h
