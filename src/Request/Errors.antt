-- ===== src/Request/Errors.antt =====
-- `parse_all_headers` on a connection that cannot be read, and on a line that is no request line.
use sculpt.Base.{
  Bytes, has, ◌++◌, [], length, none, Bool-cases, inl, inr, ◌==◌, ℕ, ◌+◌, ◌≡◌, ◌<◌, refl, true,
  false, ◌∷◌, List, get_elem?, some,
}
use sculpt.Machine.{Kernel, World, Trace, failed, read, Conn}
use sculpt.Machine.Reads.{reads, Feeds, count_reads}
use sculpt.Code.{header_parse_err}
use sculpt.Accept.{would_block}
use sculpt.Accept.Recover.{Ruined, cleanup_after_error-Corrupt}
use sculpt.Pool.{is_active}
use sculpt.Pool.Valid.{Valid}
use sculpt.Pool.Slots.{load_conn-ok}
use sculpt.Machine.Returns.{Returns, returns, and_then-Returns}
use sculpt.Text.{Lacks}
use sculpt.Message.{space}
use sculpt.Message.Overflow.{get_http_msg_malformed}
use sculpt.Reader.{cr, lf, header_buf_size}
use sculpt.Request.Wire.{IsText-of_has}
use sculpt.Request.Loaded.{next_header-fed}
use sculpt.Reader.Line.{next_header-failed}
use sculpt.Request.{parse_all_headers, parse_line, give_up, Request}

module _ (k : Kernel) (w : World) (cs : List Conn) (free : List ℕ) (i : ℕ) (c : Conn) (fuel : ℕ)
    (q : Request) (valid : Valid w.mgr.pool cs free) (at_i : get_elem? cs i ≡ some c)
    (on : is_active c.state ≡ true) where
  -- The request ends with SC_HEADER_PARSE_ERR and is otherwise as it was, and the pool is as `cleanup_after_error` leaves it when it is
  -- called after the calls `t`.
  abbrev pub GivenUp : Trace → Request → World → Type 0
  GivenUp t r v = (r ≡ record q { code = header_parse_err }) × Ruined k (record w { trace = t }) i v

  give_up-GivenUp : (t : Trace) → Returns (GivenUp t) (give_up k i q (record w { trace = t }))
  unfolding give_up
  give_up-GivenUp t =
      and_then-Returns
        (cleanup_after_error-Corrupt k (record w { trace = t }) cs free i c valid at_i on)
        λ _ v ruined. returns (refl, ruined)

  -- On a valid pool, where the first read of an active connection fails and not because it would block,
  -- `parse_all_headers` returns SC_HEADER_PARSE_ERR without a fault, with the headers and the message as they were,
  -- and gives the connection up twice: it leaves the pool as `cleanup_after_error` does.
  pub parse_all_headers-unreadable :
      k.reading (read c.fd ∷ w.trace) ≡ failed
      → would_block (k.errno (read c.fd ∷ w.trace)) ≡ false
      → Returns (GivenUp (read c.fd ∷ w.trace)) (parse_all_headers k fuel i q w)
  unfolding parse_all_headers
  parse_all_headers-unreadable bad hard =
      rw (load_conn-ok w cs i c valid.array at_i, next_header-failed k c.fd 1022 w bad hard)
        (give_up-GivenUp (read c.fd ∷ w.trace))

  -- The same where the first line that the client sends, which may be empty, has no space.
  pub parse_all_headers-malformed :
      (s rest : Bytes)
      → has cr s ≡ false
      → has 0 s ≡ false
      → length s + 2 < header_buf_size
      → Lacks space s
      → Feeds k c.fd (count_reads c.fd w.trace) (s ++ cr ∷ lf ∷ [] ++ rest)
      → Returns (GivenUp (reads c.fd (s ++ cr ∷ lf ∷ []) w.trace)) (parse_all_headers k fuel i q w)
  unfolding parse_all_headers parse_line
  parse_all_headers-malformed s rest plain text fits solid feeds =
      let t = reads c.fd (s ++ cr ∷ lf ∷ []) w.trace in
      let bad =
        get_http_msg_malformed k (record w { trace = t }) none s [] (IsText-of_has s text) solid in
      rw
        (
          load_conn-ok w cs i c valid.array at_i,
          (next_header-fed k c.fd s rest w plain text fits feeds).0,
        )
        (elim (Bool-cases (length s == 0)) [
          | inl e ↦ rw (e, bad) (give_up-GivenUp t)
          | inr e ↦ rw (e, bad) (give_up-GivenUp t)
        ])
