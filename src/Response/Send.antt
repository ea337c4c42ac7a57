-- ===== src/Response/Send.antt =====
-- `sc_easy_send`: what is sent, and what stays allocated.
use sculpt.Base.{
  none, append_assoc, sym, clash, codes, ℕ, ◌+◌, ◌^◌, ◌≡◌, ◌<◌, refl, true, false, Option, some,
  List, [], ◌∷◌, ◌++◌, Bytes, length, arith, ℤ, pos, ◌==ℤ◌, minus_one, ◌∙◌, All, All-append,
  if◌then◌else◌, subst, Bool-cases, inl, inr, ◌⊎◌, has, Distinct,
}
use sculpt.Machine.{free, Trace, at, Header, Kernel, World, send, log}
use sculpt.Machine.Blocks.{Live, Live-mark, released_block, release-ok}
use sculpt.Machine.Holding.{
  Fresh, Holding, Holding-keeps, Holding-start, Holding-log, Holding-take_two, Holding-apart,
}
use sculpt.Machine.Since.{Since, Since-more, Since-trans, now, later}
use sculpt.Machine.Returns.{Returns, returns, and_then-Returns}
use sculpt.Code.{Code, ok_code, send_err}
use sculpt.Str.Copy.{after_copy, after_copy-Holding}
use sculpt.Text.{strstr, crlf, c_string-append, IsText}
use sculpt.Headers.Append.{Generous, line, header_append-Appended}
use sculpt.Headers.Free.{Owns, headers_free-Without}
use sculpt.Machine.Occurs.{Ends, Occurs, Occurs-later}
use sculpt.Request.Loaded.{HoldTexts}
use sculpt.Response.{
  status_line, decimal, decimal_ℤ, easy_send, send_built, headers_len, free_buffer,
}
use sculpt.Response.Decimal.{decimal-IsText}
use sculpt.Response.Build.{response, joined, whole_len, request_build-response}

joined-IsText : (ts : List Bytes) → All IsText ts → IsText (joined ts)
joined-IsText [] h = tt
joined-IsText (t ∷ ts) (h, hs) = All-append _ t (joined ts) h (joined-IsText ts hs)

-- Two texts, one behind the other.
both : (a b : Bytes) → IsText a → IsText b → IsText (a ++ b)
both = All-append _

status_line-IsText : (code n : ℕ) (cs : Bytes) → IsText cs → IsText (status_line (pos code) cs n)
unfolding status_line decimal_ℤ
status_line-IsText code n cs c = both (codes "HTTP/1.1 ") _ (omega arith) (
    both (decimal code) _ (decimal-IsText code) (
      both (codes " ") _ (omega arith) (
        both cs _ c (
          both (crlf ++ codes "Content-Length: ") _ (omega arith)
            (both (decimal n) _ (decimal-IsText n) (omega arith))))))

response-IsText :
    (code : ℕ) (cs body : Bytes) (ts : List Bytes)
    → IsText cs
    → IsText body
    → All IsText ts
    → IsText (response (pos code) cs ts body)
response-IsText code cs body ts c b t =
    let line = status_line (pos code) cs (length body) in
    let whole =
      both line (joined ts) (status_line-IsText code (length body) cs c) (joined-IsText ts t) in
    both (line ++ joined ts ++ crlf) body (both (line ++ joined ts) crlf whole (omega arith)) b

line-IsText : (a : Bytes) → IsText a → IsText (line a)
unfolding line
line-IsText a t = elim (Bool-cases (strstr crlf a)) [
  | inl e ↦ rw e t
  | inr e ↦ rw e (both a crlf t (omega arith))
]

-- What a call leaves: either the response was sent and exactly the blocks of the list are gone,
-- or sending failed and what was allocated still is: the response, and the node in front of the list.
pub record Sent (k : Kernel) (w : World) (fd : ℤ) (text : Bytes) (bs : List ℕ) (r : Code)
    (v : World) : Type 0 where
  pub sent : Occurs (send fd text) v.trace
  pub mgr : v.mgr ≡ w.mgr
  pub since : Since none w.trace v.trace
  pub fresh : Fresh v
  pub memory :
      ((r ≡ ok_code)
        × ((after : Trace) × Ends k after (send fd text) false v.trace)
        × ((x : ℕ) → v.live x ≡ (if has x bs then false else w.live x)))
      ⊎ ((r ≡ send_err)
          × Ends k [] (send fd text) true v.trace
          × ((a b c : ℕ) × Holding w (a ∷ (b ∷ (c ∷ []))) v))

module _ (k : Kernel) (generous : Generous k) (w : World) (fd : ℤ) where
  send_built-Sent :
      (u : World) (text : Bytes) (h : Header) (hs : List Header) (bs : List ℕ) (rb tb hb : ℕ)
      → IsText text
      → Holding w (rb ∷ (tb ∷ (hb ∷ []))) u
      → Since none w.trace u.trace
      → Owns (h ∷ hs) (tb ∷ (hb ∷ bs))
      → Distinct bs
      → Live w.live bs
      → Returns (Sent k w fd text bs) (send_built k fd (h ∷ hs) (at (some rb) (text ++ 0 ∷ [])) u)
  unfolding send_built free_buffer
  send_built-Sent u text h hs bs rb tb hb t hold before owns apart live =
      let v = log (send fd text) u in
      let rb_out = Holding-apart w u (rb ∷ (tb ∷ (hb ∷ []))) bs rb hold live (ground arith) in
      let tb_out = Holding-apart w u (rb ∷ (tb ∷ (hb ∷ []))) bs tb hold live (ground arith) in
      let hb_out = Holding-apart w u (rb ∷ (tb ∷ (hb ∷ []))) bs hb hold live (ground arith) in
      let held : v.live rb ≡ true = hold.live rb ∙ ground arith in
      let l : Live u.live (tb ∷ (hb ∷ bs)) = (
        hold.live tb ∙ ground arith,
        (hold.live hb ∙ ground arith, Holding-keeps w u (rb ∷ (tb ∷ (hb ∷ []))) bs hold live),
      ) in
      rw (c_string-append text [] t) (elim (Bool-cases (k.result v.trace ==ℤ minus_one)) [
        | inl e ↦ rw e (
            returns (record {
              sent = inl refl;
              mgr = hold.same_mgr;
              since = Since-trans before (later tt now);
              fresh = hold.fresh;
              memory = inr (refl, (u.trace, refl, e), (rb, tb, hb, Holding-log w u _ v.trace hold));
            }))
        | inr e ↦
            rw (e, release-ok v rb held)
              (and_then-Returns
                (headers_free-Without (released_block v rb) (h ∷ hs) (tb ∷ (hb ∷ bs)) owns
                  (ground (arith, hold.distinct, tb_out), (hb_out, apart))
                  (Live-mark u.live rb (tb ∷ (hb ∷ bs)) (ground (arith, hold.distinct, rb_out)) l))
                λ _ x (gone, same, next, since).
                  let (more, trace) = Since-more since in
                  returns (record {
                    sent = Occurs-later _ x.trace more _ trace (inr (inl refl));
                    mgr = same ∙ hold.same_mgr;
                    since = Since-trans before (Since-trans (later tt (later tt now)) since);
                    fresh = λ y le. ground (arith, gone y, hold.fresh y, next, le);
                    memory = inl (
                      refl,
                      (
                        more ++ free rb ∷ [],
                        (u.trace, trace ∙ sym (append_assoc more (free rb ∷ []) v.trace), e),
                      ),
                      λ y. ground (arith, gone y, hold.live y, hold.new y, rb_out, tb_out, hb_out),
                    );
                  }))
      ])

  -- With memory granted, for a code of three digits at most and sizes that do not wrap around, `sc_easy_send` with
  -- headers that own their blocks ends without a fault. It sends the status line with the length of the body, the
  -- content type and the headers, an empty line and the body. With SC_OK everything that it allocated, and the list that it was
  -- given, has been freed; if sending fails it returns SC_SEND_ERR and leaves what it allocated, and the list, in place.
  pub easy_send-Sent :
      (code : ℕ) (cs crest a arest body brest : Bytes) (cb ab bb : Option ℕ) (hs : List Header)
      (ts : List Bytes) (bs : List ℕ)
      → Fresh w
      → code < 1000
      → IsText cs
      → IsText a
      → IsText body
      → HoldTexts hs ts
      → All IsText ts
      → Owns hs bs
      → Distinct bs
      → Live w.live bs
      → whole_len (length cs) (length body) hs + length (line a) + 2 < 2 ^ 64
      → Returns (Sent k w fd (response (pos code) cs (line a ∷ ts) body) bs) (
          easy_send k fd
            (pos code)
            (at cb (cs ++ 0 ∷ crest))
            (at ab (a ++ 0 ∷ arest))
            (at bb (body ++ 0 ∷ brest))
            hs
            w)
  unfolding easy_send headers_len
  easy_send-Sent code cs crest a arest body brest cb ab bb hs ts bs fresh small ct texty bt hold
        texts owns apart live room =
      and_then-Returns (header_append-Appended k generous w ab a arest hs texty fresh)
        λ res u added.
          let all : HoldTexts (added.head ∷ hs) (line a ∷ ts) = (added.holds, hold) in
          let held =
            Holding-take_two w w u [] added.text_block added.head.block (Holding-start w fresh)
              added.text_new added.node_new added.apart added.live (added.fresh fresh)
              added.same_mgr in
          let text =
            response-IsText code cs body (line a ∷ ts) ct bt (line-IsText a texty, texts) in
          let own : Owns (added.head ∷ hs) (added.text_block ∷ (added.head.block ∷ bs)) =
            subst (λ x. Owns x (added.text_block ∷ (added.head.block ∷ bs))) added.result
              (added.owns bs owns) in
          rw (added.result) (
            and_then-Returns
              (request_build-response k u code cs body crest brest (added.head ∷ hs) (line a ∷ ts)
                cb bb small ct bt all (line-IsText a texty, texts)
                (omega (arith, room, added.holds.len)))
              λ r v. elim [
                | inr (_, (_, (n, refused))) ↦ clash (generous u.trace n) refused
                | inl (r_eq, (n, v_eq)) ↦
                    rw (r_eq, v_eq)
                      (send_built-Sent (after_copy u n) _ added.head hs bs u.next_block
                        added.text_block added.head.block text
                        (after_copy-Holding w u (added.text_block ∷ (added.head.block ∷ [])) n held)
                        (Since-trans added.since (later tt now)) own apart live)
              ])
