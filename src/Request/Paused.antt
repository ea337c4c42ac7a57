-- ===== src/Request/Paused.antt =====
-- `parse_all_headers` against a client that pauses within its headers.
use sculpt.Base.{
  ℕ, zero, suc, ◌+◌, ◌≡◌, ◌≤◌, ◌<◌, refl, true, false, ◌||◌, some, List, [], ◌∷◌, ◌++◌, Bytes,
  length, All, ℤ, arith, get_elem?, has, ◌==◌, append-nil, sym, ◌∙◌, subst,
}
use sculpt.Machine.{Kernel, World, Conn, read, ok}
use sculpt.Machine.Reads.{
  reads, count_reads, count_reads-read, count_reads-reads, Feeds, Feeds-Sends,
}
use sculpt.Machine.Since.{Since, now, later, Since-trans, Since-some, Since-reads}
use sculpt.Machine.Holding.{Fresh, Holding, Holding-log}
use sculpt.Machine.Returns.{Returns, returns, and_then-Returns, Returns-mono}
use sculpt.Code.{ok_code}
use sculpt.Text.{crlf}
use sculpt.Headers.Free.{Owns}
use sculpt.Headers.Append.{Generous}
use sculpt.Message.RequestLine.{request_line}
use sculpt.Reader.{cr, lf, header_buf_size}
use sculpt.Reader.Line.{Stops, next_header-paused}
use sculpt.Request.{Request, header_loop, parse_all_headers}
use sculpt.Request.Wire.{IsLine, wire_to, stacked, asks_keep_alive}
use sculpt.Request.Loaded.{HoldTexts, Loaded, Loaded-log}
use sculpt.Request.Loop.{keep_line-Kept, header_loop-Reached_first}
use sculpt.Request.Received.{IsRequest, Received, parse_all_headers-loop}

-- The piece of a line that has come, if any.
abbrev pub piece : Bytes → List Bytes
piece [] = []
piece (c ∷ s) = (c ∷ s) ∷ []

stacked-append :
    (ls texts : List Bytes) (s : Bytes)
    → stacked (ls ++ s ∷ []) texts ≡ (s ++ crlf) ∷ stacked ls texts
stacked-append [] texts s = refl
stacked-append (l ∷ ls) texts s = stacked-append ls ((l ++ crlf) ∷ texts) s

asks_keep_alive-append :
    (ls : List Bytes) (s : Bytes)
    → asks_keep_alive (ls ++ s ∷ []) ≡ (asks_keep_alive ls || asks_keep_alive (s ∷ []))
asks_keep_alive-append [] s = refl
asks_keep_alive-append (l ∷ ls) s = ground (arith, asks_keep_alive-append ls s)

suc_of_positive : (n : ℕ) → 0 < n → (m : ℕ) × (n ≡ suc m)
suc_of_positive zero h = absurd (omega (arith, h))
suc_of_positive (suc n) h = (n, refl)

module _ (k : Kernel) (generous : Generous k) (fd : ℤ) (w : World) (base : List ℕ) (n : ℕ)
    (stops : Stops k fd true n) where
  -- Nothing more has come, which the loop takes for the end of the headers.
  header_loop-paused :
      (fuel : ℕ) (q : Request) (v : World)
      → n ≤ count_reads fd v.trace
      → header_loop k fd (suc fuel) 0 q v
        ≡ ok (record q { code = ok_code }) (record v { trace = read fd ∷ v.trace })
  unfolding header_loop reads
  header_loop-paused fuel q v past =
      rw
        (next_header-paused k fd n stops [] header_buf_size v refl refl (omega arith) tt
          (omega (arith, past)))
        refl

  -- One more line has been stored.
  Loaded-snoc :
      (s : Bytes) (ls : List Bytes) (q r r' : Request) (v u : World) (blocks : List ℕ)
      → Loaded w base ls [] q r v
      → r'.http_msg ≡ r.http_msg
      → r'.keep_alive ≡ (r.keep_alive || asks_keep_alive (s ∷ []))
      → HoldTexts r'.headers ((s ++ crlf) ∷ stacked ls [])
      → Owns r'.headers blocks
      → Holding w (blocks ++ base) u
      → Loaded w base (ls ++ s ∷ []) [] q r' u
  Loaded-snoc s ls q r r' v u blocks d msg keep hold owns h = record {
    msg = msg ∙ d.msg;
    keep = ground (arith, keep, d.keep, asks_keep_alive-append ls s);
    holds = subst (HoldTexts r'.headers) (sym (stacked-append ls [] s)) hold;
    blocks = blocks;
    owns = owns;
    holding = h;
  }

  -- A piece of a line has come.
  header_loop-piece :
      (p : Bytes) (ls : List Bytes) (fuel : ℕ) (q r : Request) (v : World)
      → IsLine p
      → Loaded w base ls [] q r v
      → Feeds k fd (count_reads fd v.trace) p
      → n ≤ count_reads fd v.trace + length p
      → Returns
          (λ r' u.
            (r'.code ≡ ok_code)
            × Loaded w base (ls ++ p ∷ []) [] q r' u
            × Since (some fd) v.trace u.trace)
          (header_loop k fd (suc (suc fuel)) 0 r v)
  unfolding header_loop
  header_loop-piece p ls fuel q r v l d feeds past =
      let v' = record v { trace = read fd ∷ reads fd p v.trace } in
      let full : (length p == 0) ≡ false = ground (arith, l.nonempty) in
      let h : Holding w (d.blocks ++ base) v' = Holding-log w v (d.blocks ++ base) _ d.holding in
      rw
        (
          next_header-paused k fd n stops p header_buf_size v l.plain l.text (omega (arith, l.fits))
              (Feeds-Sends k fd p _ v.trace refl feeds) past,
          full,
        )
        (and_then-Returns
          (keep_line-Kept k generous fd w base p (stacked ls []) d.blocks r v' l d.holds d.owns h)
          λ r' u (code, msg, keep, hold, (bs, owns, h'), quiet, since).
            rw
              (header_loop-paused fuel r' u (
                omega (
                  arith,
                  past,
                  quiet,
                  count_reads-reads fd p v.trace,
                  count_reads-read fd (reads fd p v.trace),
                )))
              (returns (
                refl,
                Loaded-log w base (ls ++ p ∷ []) [] q r' u ok_code _
                    (Loaded-snoc p ls q r r' v u bs d msg keep hold owns h'),
                Since-trans (Since-reads fd p v.trace) (
                    Since-trans (later {c = read fd} refl now)
                      (Since-trans (Since-some fd since) (later {c = read fd} refl now))),
              )))

  -- The loop over the headers, when after some lines and a piece of one nothing more has come.
  header_loop-Paused :
      (p : Bytes) (ls : List Bytes) (fuel : ℕ) (q : Request) (v : World)
      → All IsLine ls
      → has cr p ≡ false
      → has 0 p ≡ false
      → length p + 2 < header_buf_size
      → length ls + 1 < fuel
      → Feeds k fd (count_reads fd v.trace) (wire_to ls p)
      → n ≤ count_reads fd v.trace + length (wire_to ls p)
      → q.headers ≡ []
      → Holding w base v
      → Returns
          (λ r u.
            (r.code ≡ ok_code)
            × Loaded w base (ls ++ piece p) [] q r u
            × Since (some fd) v.trace u.trace)
          (header_loop k fd fuel 0 q v)
  header_loop-Paused [] ls fuel q v lines plain text fits more feeds past empty h =
      let end =
        header_loop-Reached_first k generous fd w base ls [] fuel q v lines (omega (arith, more))
          feeds empty h in
      rw
        (
          end.run,
          header_loop-paused end.left end.request end.world (omega (arith, past, end.count)),
          append-nil ls,
        )
        (returns (
          refl,
          Loaded-log w base ls [] q end.request end.world ok_code _ end.loaded,
          Since-trans end.since (later {c = read fd} refl now),
        ))
  header_loop-Paused (c ∷ s) ls fuel q v lines plain text fits more feeds past empty h =
      let end =
        header_loop-Reached_first k generous fd w base ls (c ∷ s) fuel q v lines
          (omega (arith, more)) feeds empty h in
      let (m, left) = suc_of_positive end.left (omega (arith, more, end.fuel_left)) in
      let l : IsLine (c ∷ s) = record {
        plain = plain;
        text = text;
        nonempty = omega arith;
        fits = fits;
      } in
      rw (end.run, left)
        (Returns-mono
          (header_loop-piece (c ∷ s) ls m q end.request end.world l end.loaded end.feeds
            (omega (arith, past, end.count)))
          λ r u (done, d, since). (done, d, Since-trans end.since since))

-- A request whose client pauses within the headers.
abbrev pub paused_request : Bytes → ℕ → Bytes → Bytes → List Bytes → Bytes → Bytes
paused_request method n uri rest ls p =
    request_line method n uri rest ++ cr ∷ lf ∷ [] ++ wire_to ls p

module _ (k : Kernel) (generous : Generous k) (w : World) (cs : List Conn) (i : ℕ) (c : Conn) where
  -- With memory granted, where the connection in a slot sends a well-formed request line, some header lines and perhaps a piece of one, and then
  -- pauses, so that a read would block: `parse_all_headers` ends with SC_OK, as if the headers ended
  -- there and the piece were a whole header. One round of fuel for each header and two more are enough.
  pub parse_all_headers-Paused :
      (method : Bytes) (n : ℕ) (uri rest : Bytes) (ls : List Bytes) (p : Bytes) (fuel : ℕ)
      (q : Request)
      → w.mgr.pool.conns ≡ some cs
      → get_elem? cs i ≡ some c
      → Fresh w
      → IsRequest method n uri rest ls
      → has cr p ≡ false
      → has 0 p ≡ false
      → length p + 2 < header_buf_size
      → Feeds k c.fd (count_reads c.fd w.trace) (paused_request method n uri rest ls p)
      → Stops k c.fd true
          (count_reads c.fd w.trace + length (paused_request method n uri rest ls p))
      → length ls + 1 < fuel
      → Returns
          (Received ok_code w c.fd method uri (ls ++ piece p) q)
          (parse_all_headers k fuel i q w)
  parse_all_headers-Paused method n uri rest ls p fuel q array at_i fresh is plain text fits feeds
        stops more =
      parse_all_headers-loop k generous w cs i c ok_code p method n uri rest ls (ls ++ piece p) fuel
        q array at_i fresh is feeds
        λ q' v base empty h fed count.
          header_loop-Paused k generous c.fd w base _ stops p ls fuel q' v is.lines plain text fits
            more fed (omega (arith, count)) empty h
