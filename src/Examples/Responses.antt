-- ===== src/Examples/Responses.antt =====
-- Responses and the sample program's handler, at a sample world.
use sculpt.Base.{
  Bool, not, ◌==◌, ◌⊎◌, refl, true, none, some, [], ◌∷◌, ◌++◌, Bytes, codes, arith, pos,
}
use sculpt.Machine.{Trace, Kernel, malloc, Header, at}
use sculpt.Machine.Returns.{Returns}
use sculpt.Machine.Holding.{Fresh}
use sculpt.Sample.{mgr, kernel, world}
use sculpt.Str.{Holds}
use sculpt.Code.{Code}
use sculpt.Headers.Append.{line, length-line}
use sculpt.Response.{easy_send, request_build, headers_len}
use sculpt.Response.Build.{response, BuiltIn, Refused, request_build-response}
use sculpt.Response.Send.{Sent, easy_send-Sent}
use sculpt.App.{root_handler}
use sculpt.App.Handler.{greeting_response, root_handler-Sent}

abbrev text : Bytes
text = codes "Server: sculpt\r\n"

-- A header whose text is in block 0 and whose node is block 1.
abbrev server : Header
server = record { block = 1; header = record { buf = at (some 0) (text ++ 0 ∷ []); len = 16 } }

server-Holds : Holds server.header text
server-Holds = record { block = some 0; rest = 0 ∷ []; buf = refl; len = refl }

world-Fresh : Fresh world
world-Fresh b h = ground (arith, h)

abbrev ok_text : Bytes
ok_text = codes "OK"

abbrev hello : Bytes
hello = codes "hello"

abbrev plain : Bytes
plain = codes "Content-Type: text/plain"

request_build-response_example :
    Returns
      (λ r v.
        BuiltIn world (response (pos 200) ok_text (text ∷ []) hello) r v
        ⊎ Refused (kernel true) world r v)
      (request_build
        (kernel true)
        (pos 200)
        (at none (ok_text ++ 0 ∷ []))
        (at none (hello ++ 0 ∷ []))
        (server ∷ [])
        world)
unfolding headers_len
request_build-response_example =
    request_build-response (kernel true) world 200 ok_text hello [] [] (server ∷ []) (text ∷ [])
      none none (omega arith) (omega arith) (omega arith) (server-Holds, tt) (omega arith, tt)
      (omega arith)

easy_send-Sent_example :
    Returns
      (Sent
        (kernel true)
        world
        (pos 5)
        (response (pos 200) ok_text (line plain ∷ (text ∷ [])) hello)
        (0 ∷ (1 ∷ [])))
      (easy_send
        (kernel true)
        (pos 5)
        (pos 200)
        (at none (ok_text ++ 0 ∷ []))
        (at none (plain ++ 0 ∷ []))
        (at none (hello ++ 0 ∷ []))
        (server ∷ [])
        world)
unfolding headers_len
easy_send-Sent_example =
    easy_send-Sent (kernel true) (λ t n. refl) world (pos 5) 200 ok_text [] plain [] hello [] none
      none none (server ∷ []) (text ∷ []) (0 ∷ (1 ∷ [])) world-Fresh (omega arith) (omega arith)
      (omega arith) (omega arith) (server-Holds, tt) (omega arith, tt) (refl, refl, refl)
      (refl, (refl, tt)) (refl, (refl, tt)) (omega (arith, length-line plain))

root_handler-Sent_example :
    Returns
      (λ _ v. (r : Code) × Sent (kernel true) world (pos 5) (greeting_response (text ∷ [])) [] r v)
      (root_handler (kernel true) (pos 5) (server ∷ []) world)
root_handler-Sent_example =
    root_handler-Sent (kernel true) (λ t n. refl) world (pos 5) (server ∷ []) (text ∷ [])
      world-Fresh (server-Holds, tt) (omega arith, tt) (omega arith, tt)

-- Memory is granted, but not for 20 connections.
abbrev grants_small : Trace → Bool
grants_small (malloc n ∷ t) = not (n == 800)
grants_small _ = true

-- Every call succeeds with 0, and the memory of a new manager holds a bound and no array.
abbrev small : Kernel
small = record (kernel true) {
  result = λ t. pos 0;
  grants = grants_small;
  fresh_mgr = record mgr { pool = record (mgr.pool) { conns = none } };
}
