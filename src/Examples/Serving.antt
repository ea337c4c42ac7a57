-- ===== src/Examples/Serving.antt =====
-- A request that is served, and a round of the event loop, at sample worlds.
use mathlib.Core.Option.{some-injective}
use sculpt.Base.{
  none, ◌-ℤ◌, ℕ, zero, suc, ◌≡◌, refl, true, false, some, List, [], ◌∷◌, get_elem?, All, arith, pos,
  subst,
}
use sculpt.Code.{ok_code}
use sculpt.Machine.{fd, Conn, time, log, Kernel, World, Event, eof, ptr, ok}
use sculpt.Machine.Returns.{Returns}
use sculpt.Sample.{slots, busy, unused, pool-Valid}
use sculpt.Text.{strstr, starts}
use sculpt.Request.{parse_all_headers}
use sculpt.Request.Wire.{stacked}
use sculpt.Request.Received.{Received, parse_all_headers-Received}
use sculpt.Pool.{conns_cleanup, is_expired}
use sculpt.Pool.Young.{conns_cleanup-young}
use sculpt.Poll.{serve, poll}
use sculpt.Poll.Batch.{Batch, Peer, Active, incoming, asking, end}
use sculpt.Poll.Serve.{Answered, serve-Answered}
use sculpt.Poll.Round.{waiting, Served, poll-Served}
use sculpt.Examples.Client.{
  client, client-Feeds, path_bytes, sent-IsRequest, routed-Safe, routed-Fresh, lines, get, path,
  version, sent, routed, blank,
}

parse_all_headers-Received_example :
    Returns
      (Received ok_code routed (pos 5) get path lines blank)
      (parse_all_headers (client eof sent) 3 0 blank routed)
parse_all_headers-Received_example =
    parse_all_headers-Received (client eof sent) (λ t n. refl) routed slots 0 busy get 1 path
      version lines 3 blank refl refl routed-Fresh sent-IsRequest (client-Feeds eof [] sent)
      (omega arith)

serve-Answered_example :
    Returns
      (λ _ v.
        Answered
          (client eof sent)
          0
          routed
          slots
          (1 ∷ [])
          0
          busy
          true
          path
          get
          (stacked lines [])
          path_bytes
          v)
      (serve (client eof sent) 3 0 routed)
unfolding strstr starts
serve-Answered_example =
    serve-Answered (client eof sent) routed slots (1 ∷ []) 0 busy pool-Valid refl refl get path
      path_bytes 0 (routed-Safe eof sent) 1 version lines 3 (λ t n. refl) routed-Fresh
      sent-IsRequest (client-Feeds eof [] sent) (omega arith)

-- The peer of slot 0 has gone.
abbrev gone : Event
gone = record { err = false; hup = false; rdhup = true; readable = true; payload = ptr (some 0) }

abbrev incoming_event : Event
incoming_event = record {
  err = false;
  hup = false;
  rdhup = false;
  readable = true;
  payload = fd (pos 3);
}

-- The client of slot 0 sends a request.
abbrev asks : Event
asks = record { err = false; hup = false; rdhup = false; readable = true; payload = ptr (some 0) }

-- Each wait ends with these events, soon after the last use of slot 0.
abbrev waking : List Event → Kernel
waking es = record (client eof sent) { ready = λ t. some es; clock = λ t. pos 110 }

-- The sweep leaves the sample's pool as it is: its connection is young.
swept : (es : List Event) → conns_cleanup (waking es) routed ≡ ok tt (log time routed)
unfolding is_expired ◌-ℤ◌
swept es = conns_cleanup-young (waking es) routed slots 2 refl refl refl young
  where
    young :
        (j : ℕ) (c : Conn)
        → get_elem? slots j ≡ some c
        → is_expired (pos 110) routed.mgr.pool c ≡ false
    young zero c h =
        subst (λ d. is_expired (pos 110) routed.mgr.pool d ≡ false) (some-injective busy c h) refl
    young (suc zero) c h =
        subst (λ d. is_expired (pos 110) routed.mgr.pool d ≡ false) (some-injective unused c h) refl
    young (suc (suc j)) c h = cc

-- Slot 0, whose client sends a request.
abbrev asker : Peer
asker = record { slot = 0; fd = pos 5; asks = true; left = 0 }

abbrev events : List Event
events = incoming_event ∷ (asks ∷ [])

abbrev start : World
start = waiting (pos 1000) (log time routed)

sample-Batch : Batch (waking events) 3 (start) (asker ∷ []) events
sample-Batch =
    incoming incoming_event (record { err = refl; payload = refl })
      (asking asker asks refl
        (record {
          err = refl;
          payload = refl;
          other = refl;
          stays = refl;
          readable = refl;
          method = get;
          spaces = 1;
          uri = path;
          rest = version;
          lines = lines;
          bytes = path_bytes;
          is_request = sent-IsRequest;
          pause = none;
          arrives = (client-Feeds eof [] sent, omega arith);
          generous = λ t n. refl;
          fresh = routed-Fresh;
          routes = routed-Safe eof sent;
        })
        end)

sample-Active : (ds : List Conn) → some slots ≡ some ds → All (Active ds) (asker ∷ [])
sample-Active ds e =
    subst (λ x. All (Active x) (asker ∷ [])) (some-injective slots ds e)
      ((busy, refl, refl, refl), tt)

poll-Served_example :
    Returns
      (λ r u.
        Served
          (waking events)
          3
          (pos 1000)
          routed
          (log time routed)
          slots
          (1 ∷ [])
          pool-Valid
          (swept events)
          (asker ∷ [])
          r
          u)
      (poll (waking events) 3 true (pos 1000) routed)
poll-Served_example =
    poll-Served (waking events) 3 (pos 1000) routed (log time routed) slots (1 ∷ []) pool-Valid
      (swept events) (asker ∷ []) events refl sample-Batch sample-Active (refl, tt) (tt, tt)
