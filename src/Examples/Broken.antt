-- ===== src/Examples/Broken.antt =====
-- Clients that break off or pause after two headers.
use sculpt.Base.{
  some, ◌-◌, ◌≡◌, refl, [], ◌∷◌, Bytes, length, arith, pos, ap, codes, List, true, ◌++◌,
}
use sculpt.Machine.{read, failed, fault, eagain, Kernel}
use sculpt.Machine.Reads.{count_reads, count_reads-read}
use sculpt.Sample.{slots, busy, pool-Valid}
use sculpt.Poll.{serve}
use sculpt.Examples.Client.{
  get_elem?-none, reading_of, client, client-Feeds, get, path, version, lines, path_bytes,
  sent-IsRequest, routed, routed-Safe, routed-Fresh,
}
use sculpt.Request.Arrives.{Arrives}
use sculpt.Request.Broken.{Broken, cut_request}
use sculpt.Machine.Returns.{Returns}
use sculpt.Text.{strstr, starts}
use sculpt.Reader.Line.{Stops}
use sculpt.Request.Wire.{stacked}
use sculpt.Request.Paused.{piece, paused_request}
use sculpt.Poll.Serve.{Answered}
use sculpt.Poll.Paused.{serve-Paused}
use sculpt.Poll.Broken.{serve_cut_short}

abbrev cut : Bytes
cut = cut_request get 1 path version lines

client-Broken : (s : Bytes) → Broken (client failed s) (pos 5) (length s)
client-Broken s t h = (
  ap (reading_of failed) (
      get_elem?-none s (count_reads (pos 5) (read (pos 5) ∷ t) - 1)
        (omega (arith, h, count_reads-read (pos 5) t))),
  refl,
)

serve_cut_short_example : serve (client failed cut) 16 0 routed ≡ fault
serve_cut_short_example =
    serve_cut_short (client failed cut) routed slots (1 ∷ []) 0 busy pool-Valid refl refl get path
      path_bytes (routed-Safe failed cut) 1 version lines 16 (omega arith) (λ t n. refl)
      routed-Fresh sent-IsRequest (client-Feeds failed [] cut) (client-Broken cut) (omega arith)

-- A third header has come in part.
abbrev paused : Bytes
paused = paused_request get 1 path version lines (codes "Accept: te")

abbrev waiter : Kernel
waiter = record (client failed paused) { errno = λ t. eagain }

waiter-Stops : Stops waiter (pos 5) true (length paused)
waiter-Stops t h = (
  ap (reading_of failed) (
      get_elem?-none paused (count_reads (pos 5) (read (pos 5) ∷ t) - 1)
        (omega (arith, h, count_reads-read (pos 5) t))),
  refl,
)

abbrev seen : List Bytes
seen = lines ++ piece (codes "Accept: te")

serve-Paused_example :
    Returns
      (λ _ v.
        Answered waiter 0 routed slots (1 ∷ []) 0 busy true path get (stacked seen []) path_bytes v)
      (serve waiter 4 0 routed)
unfolding strstr starts
serve-Paused_example =
    serve-Paused waiter routed slots (1 ∷ []) 0 busy pool-Valid refl refl get path path_bytes 0
      (routed-Safe failed paused) 1 version lines (codes "Accept: te") 4 (λ t n. refl) routed-Fresh
      sent-IsRequest refl refl (omega arith) (client-Feeds failed [] paused) waiter-Stops
      (omega arith)

-- The same client, as one of a batch of events.
waiter-Arrives : Arrives waiter 4 (pos 5) 0 get 1 path version lines (some (codes "Accept: te"))
waiter-Arrives = (refl, refl, omega arith, client-Feeds failed [] paused, waiter-Stops, omega arith)
