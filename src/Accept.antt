-- ===== src/Accept.antt =====
-- `create_new_connection`, `return_500` and `cleanup_after_error` of src/sculpt_conn.c.
pub mod Fates
pub mod Frame
pub mod Settle
pub mod Outcome
pub mod Recover
pub mod Shared
pub mod Halts
use sculpt.Base.{
  ℕ, Bool, true, false, not, Option, none, some, if◌then◌else◌, set, Bytes, codes, ◌++◌, ◌∷◌, [], ℤ,
  ltb_ℤ, minus_one, ◌==ℤ◌,
}
use sculpt.Machine.{
  Kernel, Cmd, Errno, eagain, ewouldblock, pure, ◌>>=◌, ◌>>◌, need, emit, system, get_trace,
  put_mgr, get_errno, get_mgr, put_pool, when, accept, send, close, fcntl_get, fcntl_set, epoll_ctl,
  add, delete, ptr,
}
use sculpt.Text.{crlf}
use sculpt.Code.{Code, ok_code, continue_code, accept_err}
use sculpt.Pool.{load_conn, get_free, release_conn}

abbrev pub response_503 : Bytes
response_503 =
    codes "HTTP/1.1 503 Service Unavailable"
    ++ crlf
    ++ codes "Content-Length: 21"
    ++ crlf
    ++ crlf
    ++ codes "Server at capacity"
    ++ crlf

abbrev pub response_500 : Bytes
response_500 =
    codes "HTTP/1.1 500 Internal Server Error"
    ++ crlf
    ++ codes "Content-Type: text/html; charset=UTF-8"
    ++ crlf
    ++ codes "Content-Length: 21"
    ++ crlf
    ++ crlf
    ++ codes "Internal Server Error"

-- `conn->fd = fd`
store_fd : ℕ → ℤ → Cmd (Unit {0})
store_fd i fd = do
  c ← load_conn i
  m ← get_mgr
  cs ← need m.pool.conns
  put_pool (record (m.pool) { conns = some (set cs i (record c { fd = fd })) })

-- `accept` on the manager's socket; it writes the address of the client over the manager's own.
accept_conn : Kernel → Cmd ℤ
accept_conn k = do
  m ← get_mgr
  fd ← system k (accept m.fd)
  t ← get_trace
  put_mgr (record m { addr_info = record (k.peer t m.addr_info) { port = m.addr_info.port } })
  pure fd

-- The server is at capacity.
refuse : Kernel → Cmd Code
unfolding accept_conn
refuse k = do
  fd ← accept_conn k
  when (not (fd ==ℤ minus_one)) do emit (send fd response_503); emit (close fd)
  pure continue_code

abbrev pub would_block : Errno → Bool
would_block eagain = true
would_block ewouldblock = true
would_block _ = false

-- Gives the slot back and closes its descriptor.
drop_conn : Kernel → ℕ → Cmd Code
drop_conn k i = do release_conn k (some i); c ← load_conn i; emit (close c.fd); pure continue_code

-- `accept` failed: whether that is fatal is for `errno` to say.
accept_failed : Kernel → ℕ → Cmd Code
accept_failed k i = do
  release_conn k (some i)
  e ← get_errno k
  pure (if would_block e then continue_code else accept_err)

-- A connection was accepted in slot `i`: make it non-blocking and hand it to epoll.
register : Kernel → ℕ → ℤ → Cmd Code
unfolding drop_conn
register k i fd = do
  emit (fcntl_get fd)
  r ← system k (fcntl_set fd)
  if r ==ℤ minus_one then drop_conn k i else do
    m ← get_mgr
    r ← system k (epoll_ctl (add (ptr (some i))) m.epoll_fd fd)
    if r ==ℤ minus_one then drop_conn k i else pure ok_code

pub accept_into : Kernel → ℕ → Cmd Code
unfolding accept_conn store_fd accept_failed register
accept_into k i = do
  fd ← accept_conn k
  store_fd i fd
  if fd ==ℤ minus_one then accept_failed k i else register k i fd

accept_slot : Kernel → Option ℕ → Cmd Code
unfolding accept_into
accept_slot k none = pure continue_code
accept_slot k (some i) = accept_into k i

-- `create_new_connection`
pub create_new_connection : Kernel → Cmd Code
unfolding refuse accept_slot
create_new_connection k = do
  m ← get_mgr
  if ltb_ℤ m.pool.conn_count m.pool.max_conn_count
      then (do slot ← get_free k true; accept_slot k slot)
      else refuse k

-- `return_500`
pub return_500 : Kernel → ℕ → Cmd (Unit {0})
return_500 k i = do
  c ← load_conn i
  emit (send c.fd response_500)
  emit (close c.fd)
  release_conn k (some i)
  m ← get_mgr
  emit (epoll_ctl delete m.epoll_fd c.fd)

-- `cleanup_after_error`
pub cleanup_after_error : Kernel → Option ℕ → Cmd (Unit {0})
unfolding return_500
cleanup_after_error k none = pure tt
cleanup_after_error k (some i) = do
  return_500 k i
  release_conn k (some i)
  c ← load_conn i
  emit (close c.fd)
  m ← get_mgr
  emit (epoll_ctl delete m.epoll_fd c.fd)
