-- ===== src/Poll.antt =====
-- `sc_mgr_poll` of src/sculpt_conn.c: the sweep, the wait for events, and what is done for each.
pub mod Close
pub mod Memory
pub mod Ending
pub mod Serve
pub mod Unread
pub mod Paused
pub mod Broken
pub mod Batch
pub mod Steps
pub mod Events
pub mod Round
pub mod Halts
use sculpt.Base.{
  ℕ, Bool, true, false, not, ◌||◌, Option, none, some, List, [], ◌∷◌, if◌then◌else◌, set, ℤ, pos,
  minus_one, ◌==ℤ◌,
}
use sculpt.Machine.{
  Kernel, Cmd, Buffer, HttpMsg, Header, Event, EpollData, fd, ptr, Errno, eintr, pure, crash, need,
  emit, system, get_trace, get_errno, get_time, get_mgr, put_pool, when, ◌>>=◌, ◌>>◌, log,
  epoll_wait, epoll_ctl, modify, delete, close,
}
use sculpt.Str.{readable}
use sculpt.Text.{c_string}
use sculpt.Code.{Code, ok_code, is_ok, continue_code, bad_arguments_err, epoll_wait_err}
use sculpt.Pool.{load_conn, release_conn, conns_cleanup}
use sculpt.Accept.{create_new_connection, cleanup_after_error}
use sculpt.Headers.{headers_free}
use sculpt.Request.{Request, parse_all_headers}
use sculpt.Endpoints.{dispatch}

-- The union read as a pointer: a descriptor fills a part of it, so it is a wild one.
abbrev pub pointer : EpollData → Cmd (Option ℕ)
pointer (fd n) = crash
pointer (ptr p) = pure p

-- The union read as a descriptor: the low half of a pointer.
abbrev pub descriptor : Kernel → EpollData → ℤ
descriptor k (fd n) = n
descriptor k (ptr none) = pos 0
descriptor k (ptr (some i)) = k.low_bits i

-- The connection in the slot is closed and given back; its slot still holds the descriptor.
pub hang_up : Kernel → ℕ → Cmd (Unit {0})
hang_up k i = do
  m ← get_mgr
  c ← load_conn i
  emit (epoll_ctl delete m.epoll_fd c.fd)
  emit (close c.fd)
  release_conn k (some i)

-- `conn->last_active = time(NULL)`
pub touch : Kernel → ℕ → Cmd (Unit {0})
touch k i = do
  now ← get_time k
  c ← load_conn i
  m ← get_mgr
  cs ← need m.pool.conns
  put_pool (record (m.pool) { conns = some (set cs i (record c { last_active = now })) })

-- The connection is not to be kept: the lines behind the label `end`, and those for a failing `epoll_ctl`.
pub close_conn : Kernel → ℕ → Cmd (Unit {0})
close_conn k i = do
  c ← load_conn i
  emit (close c.fd)
  release_conn k (some i)
  c ← load_conn i
  m ← get_mgr
  emit (epoll_ctl delete m.epoll_fd c.fd)

-- The connection is put back into epoll.
pub keep_conn : Kernel → ℕ → Cmd (Unit {0})
unfolding close_conn
keep_conn k i = do
  m ← get_mgr
  c ← load_conn i
  r ← system k (epoll_ctl (modify (ptr (some i))) m.epoll_fd c.fd)
  when (r ==ℤ minus_one) (close_conn k i)

-- `printf` reads both strings up to their NUL.
pub log_request : HttpMsg → Cmd (Unit {0})
log_request msg = do
  method ← need (c_string (readable msg.method.buf))
  uri ← need (c_string (readable msg.uri.buf))
  pure tt

-- What follows `parse_all_headers`. After an error the headers are freed, and the rest is done too.
pub answer : Kernel → ℕ → Request → Cmd (Unit {0})
unfolding log_request keep_conn
answer k i q = do
  when (not (is_ok q.code)) (headers_free q.headers)
  log_request q.http_msg
  c ← load_conn i
  dispatch k c.fd q.http_msg q.headers
  headers_free q.headers
  if q.keep_alive then keep_conn k i else close_conn k i

-- The variables of the caller; `http_msg` is not initialised.
abbrev pub blank_request : HttpMsg → Request
blank_request msg = record { code = ok_code; headers = []; http_msg = msg; keep_alive = false }

-- A readable connection.
pub serve : Kernel → (fuel : ℕ) → ℕ → Cmd (Unit {0})
unfolding touch answer
serve k fuel i = do
  touch k i
  t ← get_trace
  q ← parse_all_headers k fuel i (blank_request (k.stack_msg t))
  answer k i q

-- An event of a connection.
pub existing_conn : Kernel → (fuel : ℕ) → Event → Option ℕ → Cmd Code
unfolding hang_up serve
existing_conn k fuel e none = pure ok_code
existing_conn k fuel e (some i) = do
  if e.hup || e.rdhup then hang_up k i else when e.readable (serve k fuel i)
  pure ok_code

-- The body of the loop over the events.
pub handle_event : Kernel → (fuel : ℕ) → Event → Cmd Code
unfolding existing_conn
handle_event k fuel e =
    if e.err then (do p ← pointer e.payload; cleanup_after_error k p; pure ok_code) else do
      m ← get_mgr
      if descriptor k e.payload ==ℤ m.fd
          then create_new_connection k
          else do p ← pointer e.payload; existing_conn k fuel e p

-- Is the next event handled?
go_on : Cmd Code → Code → Cmd Code
go_on rest ok_code = rest
go_on rest continue_code = rest
go_on rest other = pure other

-- The loop: only an error of `create_new_connection` ends it early.
pub handle_events : Kernel → (fuel : ℕ) → List Event → Cmd Code
unfolding handle_event go_on
handle_events k fuel [] = pure ok_code
handle_events k fuel (e ∷ es) = do rc ← handle_event k fuel e; go_on (handle_events k fuel es) rc

is_eintr : Errno → Bool
is_eintr eintr = true
is_eintr _ = false

-- What `epoll_wait` gave; `none` is an error.
after_wait : Kernel → (fuel : ℕ) → Option (List Event) → Cmd Code
unfolding handle_events is_eintr
after_wait k fuel none = do e ← get_errno k; pure (if is_eintr e then ok_code else epoll_wait_err)
after_wait k fuel (some es) = handle_events k fuel es

-- `sc_mgr_poll`; `given` is false for a NULL manager. The fuel bounds the headers of each request.
pub poll : Kernel → (fuel : ℕ) → (given : Bool) → (timeout_ms : ℤ) → Cmd Code
unfolding after_wait
poll k fuel false timeout_ms = pure bad_arguments_err
poll k fuel true timeout_ms = do
  conns_cleanup k
  m ← get_mgr
  emit (epoll_wait m.epoll_fd m.max_events timeout_ms)
  t ← get_trace
  after_wait k fuel (k.ready t)
