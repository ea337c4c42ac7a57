-- ===== src/Request/Loop.antt =====
-- The loop of `parse_all_headers` against a client that sends lines.
use sculpt.Base.{
  ℕ, zero, suc, ◌+◌, ◌≡◌, ◌<◌, refl, Bool, true, false, ◌||◌, none, some, List, [], ◌∷◌, ◌++◌,
  Bytes, length, length-append, All, arith, ℤ, ◌∙◌, ap, sym, subst,
}
use sculpt.Machine.{Kernel, World, ok}
use sculpt.Machine.Reads.{reads, count_reads, count_reads-reads, Feeds}
use sculpt.Machine.Holding.{Holding-log, Holding, Holding-take_two}
use sculpt.Machine.Since.{Since, now, Since-trans, Since-some, Since-reads}
use sculpt.Machine.Returns.{Returns, returns, and_then-Returns, Returns-ok}
use sculpt.Code.{ok_code}
use sculpt.Text.{strstr, crlf, c_string-append}
use sculpt.Str.{Holds}
use sculpt.Headers.Append.{Generous, header_append-Appended}
use sculpt.Headers.Free.{Owns}
use sculpt.Reader.{cr, lf, next_header, header_buf_size}
use sculpt.Request.{Request, keep_line, header_loop}
use sculpt.Request.Wire.{
  IsLine, wire, wire_to, asks_keep_alive, keep_alive_text, IsText-of_has, line-plain,
}
use sculpt.Request.Loaded.{HoldTexts, Loaded, Loaded-log, next_header-fed, next_header-fed_line}

-- The loop has read the lines, and goes on with what is left of the fuel.
pub record Reached (k : Kernel) (fd : ℤ) (w : World) (base : List ℕ) (ls texts : List Bytes)
    (tail : Bytes) (fuel : ℕ) (q : Request) (v : World) : Type 0 where
  pub request : Request
  pub world : World
  pub left : ℕ
  pub fuel_left : fuel ≡ length ls + suc left
  pub run : header_loop k fd fuel 0 q v ≡ header_loop k fd (suc left) 0 request world
  pub loaded : Loaded w base ls texts q request world
  pub feeds : Feeds k fd (count_reads fd world.trace) tail
  pub count :
      count_reads fd world.trace + length tail ≡ count_reads fd v.trace + length (wire_to ls tail)
  pub since : Since (some fd) v.trace world.trace

-- A round of the loop in which a line is stored.
header_loop_line :
    (k : Kernel) (fd : ℤ) (fuel : ℕ) (s : Bytes) (q q' : Request) (v v' u : World)
    → next_header k fd header_buf_size v ≡ ok (ok_code, s) v'
    → keep_line k s q v' ≡ ok q' u
    → header_loop k fd (suc fuel) 0 q v ≡ header_loop k fd fuel 0 q' u
unfolding header_loop
header_loop_line k fd fuel s q q' v v' u read stored = rw (read, stored) refl

or_shift : (a b c : Bool) → (a || (b || false) || c) ≡ (a || (b || c))
or_shift true b c = refl
or_shift false true c = refl
or_shift false false c = refl

pub or_false : (a : Bool) → (a || false) ≡ a
or_false true = refl
or_false false = refl

module _ (k : Kernel) (generous : Generous k) (fd : ℤ) (w : World) (base : List ℕ) where
  -- The line of a header is stored.
  abbrev pub Kept : Bytes → List Bytes → List ℕ → Request → World → Request → World → Type 0
  Kept s texts blocks q v r u =
      (r.code ≡ q.code)
      × (r.http_msg ≡ q.http_msg)
      × (r.keep_alive ≡ (q.keep_alive || asks_keep_alive (s ∷ [])))
      × HoldTexts r.headers ((s ++ crlf) ∷ texts)
      × ((bs : List ℕ) × Owns r.headers bs × Holding w (bs ++ base) u)
      × (count_reads fd u.trace ≡ count_reads fd v.trace)
      × Since none v.trace u.trace

  pub keep_line-Kept :
      (s : Bytes) (texts : List Bytes) (blocks : List ℕ) (q : Request) (v : World)
      → IsLine s
      → HoldTexts q.headers texts
      → Owns q.headers blocks
      → Holding w (blocks ++ base) v
      → Returns (Kept s texts blocks q v) (keep_line k s q v)
  unfolding keep_line
  keep_line-Kept s texts blocks q v l hold own h =
      let text = IsText-of_has s l.text in
      rw (c_string-append s [] text) (
        and_then-Returns (header_append-Appended k generous v none s [] q.headers text h.fresh)
          λ r u a. returns (
            refl,
            refl,
            ap (λ b. q.keep_alive || b) (sym (or_false (strstr keep_alive_text s))),
            subst (λ hs. HoldTexts hs ((s ++ crlf) ∷ texts)) (sym a.result)
                (subst (λ t. Holds a.head.header t) (line-plain s l.plain) a.holds, hold),
            (
              a.text_block ∷ (a.head.block ∷ blocks),
              a.owns blocks own,
              Holding-take_two w v u (blocks ++ base) a.text_block a.head.block h a.text_new
                  a.node_new a.apart a.live (a.fresh h.fresh) a.same_mgr,
            ),
            a.quiet fd,
            a.since,
          ))

  Loaded-cons :
      (s : Bytes) (ls texts : List Bytes) (q q' r : Request) (u : World)
      → q'.http_msg ≡ q.http_msg
      → q'.keep_alive ≡ (q.keep_alive || asks_keep_alive (s ∷ []))
      → Loaded w base ls ((s ++ crlf) ∷ texts) q' r u
      → Loaded w base (s ∷ ls) texts q r u
  Loaded-cons s ls texts q q' r u msg keep d = record {
    msg = d.msg ∙ msg;
    keep =
        d.keep
        ∙ ap (λ b. b || asks_keep_alive ls) keep
        ∙ or_shift q.keep_alive (strstr keep_alive_text s) (asks_keep_alive ls);
    holds = d.holds;
    blocks = d.blocks;
    owns = d.owns;
    holding = d.holding;
  }

  -- The loop stores the lines, one after the other.
  header_loop-Reached :
      (ls texts : List Bytes) (tail : Bytes) (fuel : ℕ) (blocks : List ℕ) (q : Request) (v : World)
      → All IsLine ls
      → length ls < fuel
      → Feeds k fd (count_reads fd v.trace) (wire_to ls tail)
      → HoldTexts q.headers texts
      → Owns q.headers blocks
      → Holding w (blocks ++ base) v
      → Reached k fd w base ls texts tail fuel q v
  header_loop-Reached [] texts tail zero blocks q v lines more feeds hold own h =
      absurd (omega (arith, more))
  header_loop-Reached [] texts tail (suc fuel) blocks q v lines more feeds hold own h = record {
    request = q;
    world = v;
    left = fuel;
    fuel_left = omega arith;
    run = refl;
    loaded = record {
      msg = refl;
      keep = sym (or_false q.keep_alive);
      holds = hold;
      blocks = blocks;
      owns = own;
      holding = h;
    };
    feeds = feeds;
    count = refl;
    since = now;
  }
  header_loop-Reached (s ∷ ls) texts tail zero blocks q v lines more feeds hold own h =
      absurd (omega (arith, more))
  header_loop-Reached (s ∷ ls) texts tail (suc fuel) blocks q v (l, lines) more feeds hold own h =
      let fed = next_header-fed_line k fd s (wire_to ls tail) v l feeds in
      let v' = record v { trace = reads fd (s ++ cr ∷ lf ∷ []) v.trace } in
      let h' : Holding w (blocks ++ base) v' = Holding-log w v (blocks ++ base) _ h in
      let (q', u, e, (code, msg, keep, hold', (bs, own', h''), quiet, since)) =
        Returns-ok (keep_line-Kept s texts blocks q v' l hold own h') in
      let rest =
        header_loop-Reached ls ((s ++ crlf) ∷ texts) tail fuel bs q' u lines (omega (arith, more))
          (subst (λ n. Feeds k fd n (wire_to ls tail)) (sym quiet) fed.1) hold' own' h'' in
      record {
        request = rest.request;
        world = rest.world;
        left = rest.left;
        fuel_left = omega (arith, rest.fuel_left);
        run = header_loop_line k fd fuel s q q' v v' u fed.0 e ∙ rest.run;
        loaded = Loaded-cons s ls texts q q' rest.request rest.world msg keep rest.loaded;
        feeds = rest.feeds;
        count = omega (
          arith,
          rest.count,
          quiet,
          count_reads-reads fd (s ++ cr ∷ lf ∷ []) v.trace,
          length-append (s ++ cr ∷ lf ∷ []) (wire_to ls tail),
        );
        since =
            Since-trans (Since-reads fd (s ++ cr ∷ lf ∷ []) v.trace)
              (Since-trans (Since-some fd since) rest.since);
      }

  -- The same, from the first header on.
  pub header_loop-Reached_first :
      (ls : List Bytes) (tail : Bytes) (fuel : ℕ) (q : Request) (v : World)
      → All IsLine ls
      → length ls < fuel
      → Feeds k fd (count_reads fd v.trace) (wire_to ls tail)
      → q.headers ≡ []
      → Holding w base v
      → Reached k fd w base ls [] tail fuel q v
  header_loop-Reached_first ls tail fuel q v lines more feeds empty h =
      header_loop-Reached ls [] tail fuel [] q v lines more feeds
        (subst (λ hs. HoldTexts hs []) (sym empty) tt) (subst (λ hs. Owns hs []) (sym empty) refl) h

  -- The loop reads the lines that are left, and the empty line, and then ends.
  pub header_loop-Loaded :
      (ls : List Bytes) (fuel : ℕ) (q : Request) (v : World)
      → All IsLine ls
      → length ls < fuel
      → Feeds k fd (count_reads fd v.trace) (wire ls)
      → q.headers ≡ []
      → Holding w base v
      → Returns
          (λ r u. (r.code ≡ ok_code) × Loaded w base ls [] q r u × Since (some fd) v.trace u.trace)
          (header_loop k fd fuel 0 q v)
  unfolding header_loop
  header_loop-Loaded ls fuel q v lines more feeds empty h =
      let end = header_loop-Reached_first ls (cr ∷ lf ∷ []) fuel q v lines more feeds empty h in
      rw (end.run, (next_header-fed k fd [] [] end.world refl refl (omega arith) end.feeds).0)
        (returns (
          refl,
          Loaded-log w base ls [] q end.request end.world ok_code _ end.loaded,
          Since-trans end.since (Since-reads fd (cr ∷ lf ∷ []) end.world.trace),
        ))
