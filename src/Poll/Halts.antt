-- ===== src/Poll/Halts.antt =====
-- `sc_mgr_poll` ends, whatever its clients send, if they stop some time.
use sculpt.Base.{
  ℕ, ◌+◌, ◌≢◌, ◌≤◌, ℤ, Bool, true, false, not, ◌||◌, Option, none, some, List, [], ◌∷◌, ◌==ℤ◌,
  minus_one, arith, Bool-cases, inl, inr,
}
use sculpt.Machine.{
  Kernel, World, Event, EpollData, fd, ptr, HttpMsg, log, epoll_wait, epoll_ctl, modify, time, Run,
  when, out_of_fuel,
}
use sculpt.Machine.Halts.{
  Any, Halts, halts, faults, and_then-Halts, need-Halts, when-Halts, if-Halts, not_out_of_fuel,
}
use sculpt.Code.{Code, ok_code, continue_code, is_ok}
use sculpt.Str.{readable}
use sculpt.Text.{c_string}
use sculpt.Pool.Halts.{load_conn-Halts, release_conn-Halts, conns_cleanup-Halts}
use sculpt.Accept.Halts.{create_new_connection-Halts, cleanup_after_error-Halts}
use sculpt.Headers.{headers_free}
use sculpt.Headers.Halts.{headers_free-Halts}
use sculpt.Endpoints.Halts.{dispatch-Halts, HandlersEnd}
use sculpt.Reader.Halts.{Finite}
use sculpt.Request.{Request}
use sculpt.Request.Halts.{parse_all_headers-Halts}
use sculpt.Poll.{
  pointer, descriptor, hang_up, touch, close_conn, keep_conn, log_request, answer, blank_request,
  serve, existing_conn, handle_event, go_on, handle_events, after_wait, poll,
}

pointer-Halts : (p : EpollData) (w : World) → Halts Any (pointer p w)
pointer-Halts (fd n) w = faults
pointer-Halts (ptr p) w = halts tt

log_request-Halts : (msg : HttpMsg) (w : World) → Halts Any (log_request msg w)
unfolding log_request
log_request-Halts msg w =
    and_then-Halts (need-Halts {P = Any} (c_string (readable msg.method.buf)) w (λ s. tt)) λ a v h.
      and_then-Halts (need-Halts {P = Any} (c_string (readable msg.uri.buf)) v (λ s. tt))
        λ b u g. halts tt

go_on-Halts :
    (rest : World → Run Code) (r : Code) (w : World)
    → Halts Any (rest w)
    → Halts Any (go_on rest r w)
unfolding go_on
go_on-Halts rest ok_code w h = h
go_on-Halts rest continue_code w h = h
go_on-Halts rest _ w h = halts tt

module _ (k : Kernel) (i : ℕ) where
  touch-Halts : (w : World) → Halts Any (touch k i w)
  unfolding touch
  touch-Halts w = and_then-Halts (load_conn-Halts i (log time w)) λ c v h.
      and_then-Halts (need-Halts {P = Any} v.mgr.pool.conns v (λ cs. tt)) λ cs u g. halts tt

  hang_up-Halts : (w : World) → Halts Any (hang_up k i w)
  unfolding hang_up
  hang_up-Halts w = and_then-Halts (load_conn-Halts i w) λ c v h. release_conn-Halts k (some i) _

  close_conn-Halts : (w : World) → Halts Any (close_conn k i w)
  unfolding close_conn
  close_conn-Halts w = and_then-Halts (load_conn-Halts i w) λ c v h.
      and_then-Halts (release_conn-Halts k (some i) _)
        λ _ u g. and_then-Halts (load_conn-Halts i u) λ d x f. halts tt

  keep_conn-Halts : (w : World) → Halts Any (keep_conn k i w)
  unfolding keep_conn
  keep_conn-Halts w = and_then-Halts (load_conn-Halts i w) λ c v h.
      let t = epoll_ctl (modify (ptr (some i))) w.mgr.epoll_fd c.fd ∷ v.trace in
      when-Halts (k.result t ==ℤ minus_one) (close_conn k i) _ (close_conn-Halts _)

  answer-Halts : HandlersEnd k → (q : Request) (w : World) → Halts Any (answer k i q w)
  unfolding answer
  answer-Halts ends q w =
      and_then-Halts
        (when-Halts (not (is_ok q.code)) (headers_free q.headers) w
          (headers_free-Halts q.headers w))
        λ _ v h. and_then-Halts (log_request-Halts q.http_msg v) λ _ u g.
          and_then-Halts (load_conn-Halts i u) λ c x f.
            and_then-Halts (dispatch-Halts k ends c.fd q.http_msg q.headers x) λ _ y e.
              and_then-Halts (headers_free-Halts q.headers y) λ _ z d.
                if-Halts q.keep_alive (keep_conn k i) (close_conn k i) z (keep_conn-Halts z)
                  (close_conn-Halts z)

module _ (k : Kernel) (ends : HandlersEnd k) (fuel m : ℕ) (finite : (fd : ℤ) → Finite k fd m)
    (enough : m + 13 ≤ fuel) where
  serve-Halts : (i : ℕ) (w : World) → Halts Any (serve k fuel i w)
  unfolding serve
  serve-Halts i w = and_then-Halts (touch-Halts k i w) λ _ v h.
      and_then-Halts
        (parse_all_headers-Halts k i fuel m (blank_request (k.stack_msg v.trace)) v
          (λ cs c array at_i. (finite c.fd, omega (arith, enough))) (omega (arith, enough)))
        λ q u g. answer-Halts k i ends q u

  existing_conn-Halts :
      (e : Event) (p : Option ℕ) (w : World) → Halts Any (existing_conn k fuel e p w)
  unfolding existing_conn
  existing_conn-Halts e none w = halts tt
  existing_conn-Halts e (some i) w =
      and_then-Halts
        (if-Halts (e.hup || e.rdhup) (hang_up k i) (when e.readable (serve k fuel i)) w
          (hang_up-Halts k i w) (when-Halts e.readable (serve k fuel i) w (serve-Halts i w)))
        λ _ v h. halts tt

  handle_event-Halts : (e : Event) (w : World) → Halts Any (handle_event k fuel e w)
  unfolding handle_event
  handle_event-Halts e w = elim (Bool-cases e.err) [
    | inl t ↦ rw t (
        and_then-Halts (pointer-Halts e.payload w)
          λ p v h. and_then-Halts (cleanup_after_error-Halts k p v) λ _ u g. halts tt)
    | inr t ↦ rw t (elim (Bool-cases (descriptor k e.payload ==ℤ w.mgr.fd)) [
      | inl f ↦ rw f (create_new_connection-Halts k w)
      | inr f ↦ rw f (and_then-Halts (pointer-Halts e.payload w) λ p v h. existing_conn-Halts e p v)
    ])
  ]

  handle_events-Halts : (es : List Event) (w : World) → Halts Any (handle_events k fuel es w)
  unfolding handle_events
  handle_events-Halts [] w = halts tt
  handle_events-Halts (e ∷ es) w =
      and_then-Halts (handle_event-Halts e w)
        λ r v h. go_on-Halts (handle_events k fuel es) r v (handle_events-Halts es v)

  after_wait-Halts : (o : Option (List Event)) (w : World) → Halts Any (after_wait k fuel o w)
  unfolding after_wait
  after_wait-Halts none w = halts tt
  after_wait-Halts (some es) w = handle_events-Halts es w

  -- Where every handler ends, and no client sends more than `m` bytes in all, whatever they are, and then each read fails, ends or would block,
  -- `sc_mgr_poll` ends, be it in a fault, in any state of the manager and for all events: `m + 13` rounds of the loop
  -- over the headers are enough for each request.
  pub poll-Finite :
      (given : Bool) (timeout_ms : ℤ) (w : World) → poll k fuel given timeout_ms w ≢ out_of_fuel
  unfolding poll
  poll-Finite false timeout_ms w = λ e. cc
  poll-Finite true timeout_ms w = not_out_of_fuel {P = Any} _ (
      and_then-Halts (conns_cleanup-Halts k w)
        λ _ v h. after_wait-Halts _ (log (epoll_wait v.mgr.epoll_fd v.mgr.max_events timeout_ms) v))
