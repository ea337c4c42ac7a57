-- ===== src/Request/Loaded.antt =====
-- What the loop of `parse_all_headers` makes of the lines that a client sends.
use sculpt.Base.{
  ℕ, suc, ◌+◌, ◌≡◌, ◌<◌, refl, false, ◌||◌, List, [], ◌∷◌, ◌++◌, Bytes, length, has, arith, ◌==◌, ℤ,
  ◌∙◌, ap, sym, if◌then◌else◌,
}
use sculpt.Machine.{Kernel, World, Trace, Header, ok}
use sculpt.Machine.Reads.{reads, count_reads, count_reads-reads, Feeds, Feeds-append, Feeds-Sends}
use sculpt.Machine.Holding.{Holding-log, Holding}
use sculpt.Code.{Code, ok_code, finished}
use sculpt.Str.{Holds}
use sculpt.Headers.Free.{Owns}
use sculpt.Reader.{cr, lf, next_header, header_buf_size}
use sculpt.Reader.Line.{next_header-line}
use sculpt.Request.{Request}
use sculpt.Request.Wire.{IsLine, stacked, asks_keep_alive}

-- The nodes hold the texts, in order.
abbrev pub HoldTexts : List Header → List Bytes → Type 0
HoldTexts [] [] = Unit
HoldTexts [] (t ∷ ts) = ⊥
HoldTexts (h ∷ hs) [] = ⊥
HoldTexts (h ∷ hs) (t ∷ ts) = Holds h.header t × HoldTexts hs ts

module _ (k : Kernel) (fd : ℤ) where
  -- One line of the client, whatever was called before it.
  pub next_header-fed :
      (s rest : Bytes) (w : World)
      → has cr s ≡ false
      → has 0 s ≡ false
      → length s + 2 < header_buf_size
      → Feeds k fd (count_reads fd w.trace) (s ++ cr ∷ lf ∷ [] ++ rest)
      → let t = reads fd (s ++ cr ∷ lf ∷ []) w.trace in
        (next_header k fd header_buf_size w
          ≡ ok (if length s == 0 then finished else ok_code, s) (record w { trace = t }))
        × Feeds k fd (count_reads fd t) rest
  next_header-fed s rest w plain text fits feeds =
      let n = count_reads fd w.trace in
      let t = s ++ cr ∷ lf ∷ [] in
      let split =
        Feeds-append k fd t rest n (count_reads fd (reads fd t w.trace))
          (sym (count_reads-reads fd t w.trace)) feeds in
      (
        (next_header-line k fd w s rest header_buf_size plain text fits
            (Feeds-Sends k fd (t ++ rest) n w.trace refl feeds)).0,
        split.1,
      )

  pub next_header-fed_line :
      (s rest : Bytes) (w : World)
      → IsLine s
      → Feeds k fd (count_reads fd w.trace) (s ++ cr ∷ lf ∷ [] ++ rest)
      → let t = reads fd (s ++ cr ∷ lf ∷ []) w.trace in
        (next_header k fd header_buf_size w ≡ ok (ok_code, s) (record w { trace = t }))
        × Feeds k fd (count_reads fd t) rest
  next_header-fed_line s rest w l feeds =
      let fed = next_header-fed s rest w l.plain l.text l.fits feeds in
      let full : (length s == 0) ≡ false = ground (arith, l.nonempty) in
      (fed.0 ∙ rw full refl, fed.1)

-- There is a node for each text.
pub length-HoldTexts :
    (hs : List Header) (ts : List Bytes) → HoldTexts hs ts → length hs ≡ length ts
length-HoldTexts [] [] hold = refl
length-HoldTexts [] (t ∷ ts) hold = absurd hold
length-HoldTexts (h ∷ hs) [] hold = absurd hold
length-HoldTexts (h ∷ hs) (t ∷ ts) hold = ap suc (length-HoldTexts hs ts hold.1)

-- What the loop over the headers makes of the lines: a node for each, in front of those that were there.
pub record Loaded (w : World) (base : List ℕ) (ls texts : List Bytes) (q r : Request) (u : World)
    : Type 0 where
  pub msg : r.http_msg ≡ q.http_msg
  pub keep : r.keep_alive ≡ (q.keep_alive || asks_keep_alive ls)
  pub holds : HoldTexts r.headers (stacked ls texts)
  pub blocks : List ℕ
  pub owns : Owns r.headers blocks
  pub holding : Holding w (blocks ++ base) u

-- The last reads, and the code.
pub Loaded-log :
    (w : World) (base : List ℕ) (ls texts : List Bytes) (q r : Request) (u : World) (e : Code)
    (t : Trace)
    → Loaded w base ls texts q r u
    → Loaded w base ls texts q (record r { code = e }) (record u { trace = t })
Loaded-log w base ls texts q r u e t d = record {
  msg = d.msg;
  keep = d.keep;
  holds = d.holds;
  blocks = d.blocks;
  owns = d.owns;
  holding = Holding-log w u (d.blocks ++ base) t d.holding;
}
