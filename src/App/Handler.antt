-- ===== src/App/Handler.antt =====
-- The handler of the sample program, with the response that it sends.
use sculpt.Base.{
  ℕ, ◌==◌, ◌≡◌, true, inl, inr, none, refl, List, [], ◌∷◌, Bytes, codes, arith, All, ℤ, pos,
}
use sculpt.Machine.{Kernel, World, Header}
use sculpt.Machine.Holding.{Fresh}
use sculpt.Machine.Returns.{Returns, returns, and_then-Returns, Returns-mono}
use sculpt.Code.{Code}
use sculpt.Text.{IsText, Short}
use sculpt.Headers.Append.{Generous, line, length-line}
use sculpt.Request.Loaded.{HoldTexts}
use sculpt.Response.{headers_len}
use sculpt.Response.Build.{response}
use sculpt.Response.Send.{Sent, easy_send-Sent}
use sculpt.App.{root_handler, application}
use sculpt.Endpoints.Dispatch.{Modest, Tame}
use sculpt.App.Page.{page, page-IsText, root_body-page}

-- The response of the handler to a request with these headers.
abbrev pub greeting_response : List Bytes → Bytes
greeting_response ts =
    response (pos 200) (codes "OK") (line (codes "Content-Type: text/html") ∷ []) (page ts)

module _ (k : Kernel) (generous : Generous k) (w : World) (fd : ℤ) where
  -- With memory granted, `root_handler` returns without a fault for every list of headers that hold texts. It
  -- sends 200 OK with the page of the headers that there is room for. It leaves memory as it was, or, if sending fails,
  -- three more blocks allocated.
  pub root_handler-Sent :
      (hs : List Header) (ts : List Bytes)
      → Fresh w
      → HoldTexts hs ts
      → All IsText ts
      → Short ts
      → Returns
          (λ _ v. (r : Code) × Sent k w fd (greeting_response ts) [] r v)
          (root_handler k fd hs w)
  unfolding root_handler headers_len
  root_handler-Sent hs ts fresh hold text short =
      let (written, fits) = root_body-page hs ts hold text short in
      rw written (
        and_then-Returns
          (easy_send-Sent k generous w fd 200 (codes "OK") [] (codes "Content-Type: text/html") []
            (page ts) [] none none none [] [] [] fresh (omega arith) (omega arith) (omega arith)
            (page-IsText ts text) tt tt refl tt tt
            (omega (arith, fits, length-line (codes "Content-Type: text/html"))))
          λ r v sent. returns (r, sent))

-- Where sending fails, the blocks of the response are lost.
Sent-Modest :
    (k : Kernel) (w v : World) (fd : ℤ) (text : Bytes) (r : Code)
    → Sent k w fd text [] r v
    → Modest 3 w v
Sent-Modest k w v fd text r sent = record {
  same_mgr = sent.mgr;
  since = sent.since;
  fresh = sent.fresh;
  lost = elim sent.memory [
    | inl (_, _, same) ↦ record { blocks = []; count = omega arith; live = same; new = λ a e. cc }
    | inr (_, _, (a, b, c, held)) ↦ record {
      blocks = a ∷ (b ∷ (c ∷ []));
      count = omega arith;
      live = held.live;
      new = held.new;
    }
  ];
}

-- In the program, with memory granted, the handler at the address `root` ends without a fault, reads nothing, leaves the manager
-- alone and loses at most three blocks.
pub application-Tame : (k : Kernel) (root : ℕ) → Generous k → Tame (application k root) 3 root
application-Tame k root generous fd msg headers ts w fresh hold text short =
    let same : (root == root) ≡ true = ground arith in
    rw same (
      Returns-mono (root_handler-Sent k generous w fd headers ts fresh hold text short)
        λ _ v (r, sent). Sent-Modest k w v fd (greeting_response ts) r sent)
