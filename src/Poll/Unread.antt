-- ===== src/Poll/Unread.antt =====
-- A readable connection whose request cannot be read, or is none.
use sculpt.Base.{
  Bytes, has, length, [], ◌++◌, ◌+◌, ◌<◌, ℕ, ◌≡◌, refl, true, false, some, ◌∷◌, List, get_elem?,
  set, get_elem?-set_self, lt_of_get_elem?,
}
use sculpt.Machine.{HttpMsg, Conn, Kernel, World, wild, time, read, failed, fault}
use sculpt.Machine.Returns.{and_then-fault}
use sculpt.Accept.{would_block}
use sculpt.Text.{c_string, Lacks}
use sculpt.Headers.Free.{headers_free-nil}
use sculpt.Pool.{is_active}
use sculpt.Pool.Valid.{Valid}
use sculpt.Request.Errors.{parse_all_headers-unreadable, parse_all_headers-malformed}
use sculpt.Request.{Request}
use sculpt.Code.{header_parse_err}
use sculpt.Machine.Reads.{count_reads, Feeds}
use sculpt.Message.{space}
use sculpt.Reader.{cr, lf, header_buf_size}
use sculpt.Poll.{serve, answer, log_request, blank_request}
use sculpt.Poll.Close.{touched, touched_world, touch-ok, touched-Valid}

-- After an error the request is answered all the same, from a message that was never set.
answer_unset-fault :
    (k : Kernel) (i : ℕ) (msg : HttpMsg) (r : Request) (v : World)
    → msg.method.buf ≡ wild
    → r ≡ record (blank_request msg) { code = header_parse_err }
    → answer k i r v ≡ fault
unfolding answer log_request c_string
answer_unset-fault k i msg r v junk same = rw (same, headers_free-nil v, junk) refl

module _ (k : Kernel) (w : World) (cs : List Conn) (free : List ℕ) (i : ℕ) (c : Conn) (fuel : ℕ)
    (valid : Valid w.mgr.pool cs free) (at_i : get_elem? cs i ≡ some c)
    (on : is_active c.state ≡ true) (junk : (k.stack_msg (time ∷ w.trace)).method.buf ≡ wild) where
  abbrev start : World
  start = touched_world k w cs free i c valid at_i on

  abbrev latest : Conn
  latest = touched k w cs free i c valid at_i on

  valid_start : Valid start.mgr.pool (set cs i latest) free
  valid_start = touched-Valid k w cs free i c valid at_i on

  at_latest : get_elem? (set cs i latest) i ≡ some latest
  at_latest = get_elem?-set_self cs i latest (lt_of_get_elem? cs i at_i)

  -- On a valid pool, where the first read of an active connection fails and not because it would block, and the stack holds a
  -- wild pointer where the method is, the part of `sc_mgr_poll` for a readable connection ends in a fault.
  pub serve_unreadable :
      k.reading (read c.fd ∷ time ∷ w.trace) ≡ failed
      → would_block (k.errno (read c.fd ∷ time ∷ w.trace)) ≡ false
      → serve k fuel i w ≡ fault
  unfolding serve
  serve_unreadable bad hard =
      let msg = k.stack_msg (time ∷ w.trace) in
      rw (touch-ok k w cs free i c valid at_i on) (
        and_then-fault
          (parse_all_headers-unreadable k start (set cs i latest) free i latest fuel
            (blank_request msg) valid_start at_latest on bad hard)
          λ r v (given_up, _). answer_unset-fault k i msg r v junk given_up)

  -- On a valid pool, where the client of an active connection sends a first line without a space that fits into the buffer, be
  -- it empty, and the stack holds a wild pointer where the method is, the part of `sc_mgr_poll` for a readable connection ends
  -- in a fault.
  pub serve_malformed :
      (s rest : Bytes)
      → has cr s ≡ false
      → has 0 s ≡ false
      → length s + 2 < header_buf_size
      → Lacks space s
      → Feeds k c.fd (count_reads c.fd w.trace) (s ++ cr ∷ lf ∷ [] ++ rest)
      → serve k fuel i w ≡ fault
  unfolding serve
  serve_malformed s rest plain text fits solid feeds =
      let msg = k.stack_msg (time ∷ w.trace) in
      rw (touch-ok k w cs free i c valid at_i on) (
        and_then-fault
          (parse_all_headers-malformed k start (set cs i latest) free i latest fuel
            (blank_request msg) valid_start at_latest on s rest plain text fits solid feeds)
          λ r v (given_up, _). answer_unset-fault k i msg r v junk given_up)
