-- ===== src/Request/Broken.antt =====
-- `parse_all_headers` against a client that breaks off after some of its headers.
use sculpt.Base.{
  Bytes, ◌++◌, [], length, ℕ, zero, suc, ◌+◌, ◌≡◌, ◌≤◌, ◌<◌, refl, true, false, ◌∷◌, ℤ, arith, leb,
  List, get_elem?, some,
}
use sculpt.Machine.{Kernel, World, Trace, read, ok, log, Conn}
use sculpt.Machine.Since.{Since, now, later, Since-trans}
use sculpt.Machine.Reads.{Feeds, count_reads, count_reads-read}
use sculpt.Code.{header_parse_err}
use sculpt.Machine.Returns.{Returns, returns}
use sculpt.Reader.{cr, lf}
use sculpt.Request.Wire.{wire_to}
use sculpt.Request.Loaded.{Loaded-log}
use sculpt.Request.Loop.{header_loop-Reached_first}
use sculpt.Reader.Line.{Stops, next_header-failed}
use sculpt.Request.{parse_all_headers, Request, header_loop, max_header_error_count}
use sculpt.Machine.Holding.{Fresh}
use sculpt.Headers.Append.{Generous}
use sculpt.Message.RequestLine.{request_line}
use sculpt.Request.Received.{IsRequest, Received, parse_all_headers-loop}

-- `n` more reads, in front of the calls `t`.
pub again : ℕ → ℤ → Trace → Trace
again zero fd t = t
again (suc n) fd t = again n fd (read fd ∷ t)

pub Since-again : (n : ℕ) (fd : ℤ) (t : Trace) → Since (some fd) t (again n fd t)
unfolding again
Since-again zero fd t = now
Since-again (suc n) fd t =
    Since-trans (later {c = read fd} refl now) (Since-again n fd (read fd ∷ t))

le_test : (n : ℕ) → max_header_error_count ≤ n → leb max_header_error_count n ≡ true
le_test n h = ground (arith, h)

gt_test : (n : ℕ) → n < max_header_error_count → leb max_header_error_count n ≡ false
gt_test n h = ground (arith, h)

module _ (k : Kernel) (fd : ℤ) where
  -- No read succeeds any more.
  abbrev pub Broken : ℕ → Type 0
  Broken = Stops k fd false

  -- On a connection that cannot be read any more, from `error_count` errors in a row on, the loop makes as many
  -- reads as are left to the limit of twelve, and then ends with SC_HEADER_PARSE_ERR, the headers that it had
  -- and no other call. Any fuel beyond these reads is enough.
  pub header_loop-Broken :
      (n : ℕ)
      → Broken n
      → (left fuel error_count : ℕ) (q : Request) (w : World) → n ≤ count_reads fd w.trace
      → error_count + left ≡ max_header_error_count
      → left ≤ fuel
      → header_loop k fd (suc fuel) error_count q w
        ≡ ok (record q { code = header_parse_err }) (record w { trace = again left fd w.trace })
  unfolding header_loop again
  header_loop-Broken n bad zero fuel errors q w past count enough =
      rw (le_test errors (omega (arith, count))) refl
  header_loop-Broken n bad (suc left) zero errors q w past count enough =
      absurd (omega (arith, enough))
  header_loop-Broken n bad (suc left) (suc fuel) errors q w past count enough =
      let e = bad w.trace past in
      rw (gt_test errors (omega (arith, count)), next_header-failed k fd 1022 w e.0 e.1)
        (header_loop-Broken n bad left fuel (suc errors) q (log (read fd) w)
          (omega (arith, past, count_reads-read fd w.trace)) (omega (arith, count))
          (omega (arith, enough)))

-- A request that breaks off after the headers: the line that would end them is missing.
abbrev pub cut_request : Bytes → ℕ → Bytes → Bytes → List Bytes → Bytes
cut_request method n uri rest ls = request_line method n uri rest ++ cr ∷ lf ∷ [] ++ wire_to ls []

module _ (k : Kernel) (generous : Generous k) (w : World) (cs : List Conn) (i : ℕ) (c : Conn) where
  -- With memory granted, where the connection in a slot sends a well-formed request line and some header lines, and from then on
  -- cannot be read: `parse_all_headers` ends with SC_HEADER_PARSE_ERR, and yet with the message and the headers of
  -- what came, in blocks that are still allocated. One round of fuel for each header and thirteen more are enough.
  pub parse_all_headers-Broken :
      (method : Bytes) (n : ℕ) (uri rest : Bytes) (ls : List Bytes) (fuel : ℕ) (q : Request)
      → w.mgr.pool.conns ≡ some cs
      → get_elem? cs i ≡ some c
      → Fresh w
      → IsRequest method n uri rest ls
      → Feeds k c.fd (count_reads c.fd w.trace) (cut_request method n uri rest ls)
      → Broken k c.fd (count_reads c.fd w.trace + length (cut_request method n uri rest ls))
      → length ls + max_header_error_count < fuel
      → Returns (Received header_parse_err w c.fd method uri ls q) (parse_all_headers k fuel i q w)
  parse_all_headers-Broken method n uri rest ls fuel q array at_i fresh is feeds broken more =
      parse_all_headers-loop k generous w cs i c header_parse_err [] method n uri rest ls ls fuel q
        array at_i fresh is feeds
        λ q' v base empty h fed count.
          let end =
            header_loop-Reached_first k generous c.fd w base ls [] fuel q' v is.lines
              (omega (arith, more)) fed empty h in
          rw
            (
              end.run,
              header_loop-Broken k c.fd
                  (count_reads c.fd w.trace + length (cut_request method n uri rest ls)) broken
                  max_header_error_count end.left 0 end.request end.world
                  (omega (arith, end.count, count)) refl (omega (arith, more, end.fuel_left)),
            )
            (returns (
              refl,
              Loaded-log w base ls [] q' end.request end.world header_parse_err _ end.loaded,
              Since-trans end.since (Since-again max_header_error_count c.fd end.world.trace),
            ))
