-- ===== src/Poll/Paused.antt =====
-- A readable connection whose client pauses within its headers.
use sculpt.Request.Wire.{Fits, IsLine-Fits, IsText-of_has, stacked, asks_keep_alive}
use sculpt.Base.{
  [], ◌∷◌, All-append, Option, none, ℕ, ◌+◌, ◌≡◌, ◌<◌, refl, true, false, some, List, ◌++◌, Bytes,
  length, All, get_elem?, has, set,
}
use sculpt.Endpoints.Dispatch.{Safe}
use sculpt.Machine.{Conn, Kernel, World}
use sculpt.Machine.Reads.{count_reads, Feeds}
use sculpt.Machine.Holding.{Fresh}
use sculpt.Machine.Returns.{Returns}
use sculpt.Str.Order.{IsByte}
use sculpt.Headers.Append.{Generous}
use sculpt.Pool.{is_active}
use sculpt.Pool.Valid.{Valid}
use sculpt.Reader.{cr, header_buf_size}
use sculpt.Reader.Line.{Stops}
use sculpt.Request.Received.{IsRequest}
use sculpt.Request.Arrives.{seen, Arrives}
use sculpt.Request.Paused.{piece, paused_request, parse_all_headers-Paused}
use sculpt.Poll.{serve}
use sculpt.Poll.Serve.{serve-Answered, Answered, serve-Received, start, latest, at_latest}

piece-Fits : (p : Bytes) → has 0 p ≡ false → length p + 2 < header_buf_size → All Fits (piece p)
piece-Fits [] text fits = tt
piece-Fits (c ∷ s) text fits = ((IsText-of_has (c ∷ s) text, fits), tt)

module _ (k : Kernel) (w : World) (cs : List Conn) (free : List ℕ) (i : ℕ) (c : Conn)
    (valid : Valid w.mgr.pool cs free) (at_i : get_elem? cs i ≡ some c)
    (on : is_active c.state ≡ true) (method uri : Bytes) (b : All IsByte uri) (left : ℕ)
    (routes : All (Safe k left uri) w.mgr.endpoints) where
  -- On a valid pool, with memory granted, paths in the endpoints, and handlers at those that take the URI that end, read nothing,
  -- leave the manager alone and lose at most `left` blocks, where the client of an active connection sends a well-formed request line,
  -- some header lines and perhaps a piece of one, and then pauses, so that a read would block: the part of `sc_mgr_poll`
  -- for a readable connection does not wait for the rest. It ends without a fault, with the request answered as if these
  -- were all the headers and the piece were a whole one.
  pub serve-Paused :
      (n : ℕ) (rest : Bytes) (ls : List Bytes) (p : Bytes) (fuel : ℕ)
      → Generous k
      → Fresh w
      → IsRequest method n uri rest ls
      → has cr p ≡ false
      → has 0 p ≡ false
      → length p + 2 < header_buf_size
      → Feeds k c.fd (count_reads c.fd w.trace) (paused_request method n uri rest ls p)
      → Stops k c.fd true
          (count_reads c.fd w.trace + length (paused_request method n uri rest ls p))
      → length ls + 1 < fuel
      → Returns
          (λ _ v.
            Answered k left w cs free i c
              (asks_keep_alive (ls ++ piece p))
              uri
              method
              (stacked (ls ++ piece p) [])
              b
              v)
          (serve k fuel i w)
  serve-Paused n rest ls p fuel generous fresh is plain text fits feeds stops more =
      serve-Received k w cs free i c valid at_i on method uri b left routes (ls ++ piece p) fuel
        (All-append _ ls (piece p) (IsLine-Fits ls is.lines) (piece-Fits p text fits))
        (parse_all_headers-Paused k generous
          (start k w cs free i c valid at_i on method uri b left routes)
          (set cs i (latest k w cs free i c valid at_i on method uri b left routes)) i
          (latest k w cs free i c valid at_i on method uri b left routes) method n uri rest ls p
          fuel _ refl (at_latest k w cs free i c valid at_i on method uri b left routes) fresh is
          plain text fits feeds stops more)

  -- A request that comes whole, or up to a pause.
  pub serve-Arrives :
      (n : ℕ) (rest : Bytes) (ls : List Bytes) (pause : Option Bytes) (fuel : ℕ)
      → Generous k
      → Fresh w
      → IsRequest method n uri rest ls
      → Arrives k fuel c.fd (count_reads c.fd w.trace) method n uri rest ls pause
      → Returns
          (λ _ v.
            Answered k left w cs free i c
              (asks_keep_alive (seen ls pause))
              uri
              method
              (stacked (seen ls pause) [])
              b
              v)
          (serve k fuel i w)
  serve-Arrives n rest ls none fuel generous fresh is (feeds, more) =
      serve-Answered k w cs free i c valid at_i on method uri b left routes n rest ls fuel generous
        fresh is feeds more
  serve-Arrives n rest ls (some p) fuel generous fresh is (plain, text, fits, feeds, stops, more) =
      serve-Paused n rest ls p fuel generous fresh is plain text fits feeds stops more
