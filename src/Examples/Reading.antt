-- ===== src/Examples/Reading.antt =====
-- A connection that cannot be read, and a first line that is no request line.
use sculpt.Base.{Bytes, codes, ◌++◌, arith, ◌≡◌, refl, true, [], ◌∷◌}
use sculpt.Machine.{eof, Kernel, failed, other, fault}
use sculpt.Sample.{kernel, world, slots, pool-Valid, busy}
use sculpt.Poll.{serve}
use sculpt.Poll.Unread.{serve_unreadable, serve_malformed}
use sculpt.Examples.Client.{client, client-Feeds}
use sculpt.Reader.{cr, lf}

abbrev broken : Kernel
broken = record (kernel true) { reading = λ t. failed; errno = λ t. other }

serve_unreadable_example : serve broken 20 0 world ≡ fault
serve_unreadable_example =
    serve_unreadable broken world slots (1 ∷ []) 0 busy 20 pool-Valid refl refl refl refl refl

-- A client that greets instead of asking.
abbrev greeting : Bytes
greeting = codes "hello"

serve_malformed_example : serve (client eof (greeting ++ cr ∷ lf ∷ [])) 20 0 world ≡ fault
serve_malformed_example =
    serve_malformed (client eof (greeting ++ cr ∷ lf ∷ [])) world slots (1 ∷ []) 0 busy 20
      pool-Valid refl refl refl greeting [] refl refl (omega arith) (omega arith)
      (client-Feeds eof [] (greeting ++ cr ∷ lf ∷ []))
