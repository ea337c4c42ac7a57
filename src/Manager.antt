-- ===== src/Manager.antt =====
-- The life of a connection manager: src/sculpt_mgr.c, and `sc_mgr_epoll_init` of
-- src/sculpt_conn.c. A pointer to the manager is its block.
pub mod Create
pub mod Finish
pub mod Watch
use sculpt.Base.{
  ℕ, zero, suc, ◌+◌, ◌-◌, ◌*◌, ◌/◌, ◌%◌, ◌^◌, Bool, true, false, not, Option, none, some, List, [],
  ◌∷◌, if◌then◌else◌, ℤ, pos, negsuc, ltb_ℤ, minus_one, ◌==ℤ◌,
}
use sculpt.Machine.{
  AddrInfo, Endpoint, Mgr, Kernel, Cmd, pure, ◌>>=◌, ◌>>◌, emit, system, get_mgr, put_mgr, when,
  close, socket, setsockopt, bind, listen, getnameinfo, epoll_create, fcntl_get, fcntl_set,
  epoll_ctl, add, fd,
}
use sculpt.Machine.Heap.{alloc, release}
use sculpt.Code.{
  Code, ok_code, bind_err, listen_err, getnameinfo_err, malloc_err, setopt_err, creation_err,
  epoll_creation_err, epoll_ctl_err, bad_arguments_err, fcntl_err,
}
use sculpt.Pool.{pool_destroy, free_option, to_size}

abbrev pub default_backlog : ℤ
default_backlog = pos 128

abbrev pub default_max_events : ℕ
default_max_events = 12

-- The sizes of `sc_conn_mgr` and of `struct epoll_event`.
abbrev mgr_size : ℕ
mgr_size = 1184

abbrev pub event_size : ℕ
event_size = 12

abbrev pub is_negative : ℤ → Bool
is_negative n = ltb_ℤ n (pos 0)

-- An `int` as a `uint16_t`, and `htons` on a little-endian machine.
to_u16 : ℤ → ℕ
to_u16 (pos n) = n % 2 ^ 16
to_u16 (negsuc n) = 2 ^ 16 - 1 - n % 2 ^ 16

abbrev htons : ℕ → ℕ
htons n = n % 256 * 256 + n / 256

-- `sc_addr_create`; 127.0.0.1 in network order.
pub addr_create : ℤ → ℤ → AddrInfo
unfolding to_u16
addr_create family port = record {
  sin_family = family;
  sin_port = htons (to_u16 port);
  s_addr = 0x0100007f;
  port = port;
}

-- The code in `*err`, and the manager if there is one.
abbrev pub Created : Type 0
Created = Code × Option ℕ

-- The label `error`.
abandon : ℕ → ℤ → Code → Cmd Created
abandon b s err = do emit (close s); release b; pure (err, none)

-- The socket's option and its address.
name_socket : Kernel → ℕ → ℤ → AddrInfo → Cmd Created
unfolding abandon
name_socket k b s addr = do
  r ← system k (setsockopt s)
  if is_negative r then abandon b s setopt_err else do
    r ← system k (bind s addr)
    if not (r ==ℤ pos 0) then abandon b s bind_err else pure (ok_code, some b)

-- The fields that are not set here keep what was in memory.
create_in : Kernel → AddrInfo → Option ℕ → Cmd Created
unfolding name_socket
create_in k addr none = pure (malloc_err, none)
create_in k addr (some b) = do
  put_mgr (record (k.fresh_mgr) {
    addr_info = addr;
    backlog = default_backlog;
    max_events = default_max_events;
    listening = false;
    epoll_fd = minus_one;
    endpoints = [];
  })
  s ← system k socket
  m ← get_mgr
  put_mgr (record m { fd = s })
  if is_negative s then (do release b; pure (creation_err, none)) else name_socket k b s addr

-- `sc_mgr_create`
unfoldable pub mgr_create : Kernel → AddrInfo → Cmd Created
unfolding create_in
mgr_create k addr = do r ← alloc k mgr_size; create_in k addr r

-- `sc_mgr_backlog_set`, `sc_mgr_epoll_maxevents_set` and `sc_mgr_ll_set`
pub backlog_set : ℤ → Cmd (Unit {0})
backlog_set n = do m ← get_mgr; put_mgr (record m { backlog = n })

pub epoll_maxevents_set : ℤ → Cmd (Unit {0})
epoll_maxevents_set n = do m ← get_mgr; put_mgr (record m { max_events = to_size n })

pub ll_set : ℤ → Cmd (Unit {0})
ll_set n = do m ← get_mgr; put_mgr (record m { ll = n })

-- `sc_mgr_listen`
unfoldable pub mgr_listen : Kernel → Cmd Code
mgr_listen k = do
  m ← get_mgr
  r ← system k (listen m.fd m.backlog)
  if is_negative r then pure listen_err else do
    r ← system k (getnameinfo m.addr_info)
    if not (r ==ℤ pos 0)
        then pure getnameinfo_err
        else do put_mgr (record m { listening = true }); pure ok_code

-- The allocation of the events.
alloc_events : Kernel → Cmd Code
alloc_events k = do
  m ← get_mgr
  r ← alloc k (m.max_events * event_size)
  put_mgr (record m { events = r })
  pure (elim r [ none ↦ malloc_err | some b ↦ ok_code ])

-- The listening socket is made non-blocking and added to epoll.
watch_socket : Kernel → Cmd Code
unfolding alloc_events
watch_socket k = do
  m ← get_mgr
  flags ← system k (fcntl_get m.fd)
  if flags ==ℤ minus_one then pure fcntl_err else do
    r ← system k (fcntl_set m.fd)
    if r ==ℤ minus_one then pure fcntl_err else do
      r ← system k (epoll_ctl (add (fd m.fd)) m.epoll_fd m.fd)
      if r ==ℤ minus_one then pure epoll_ctl_err else alloc_events k

-- `sc_mgr_epoll_init`
unfoldable pub epoll_init : Kernel → (given : Bool) → Cmd Code
unfolding watch_socket
epoll_init k false = pure bad_arguments_err
epoll_init k true = do
  e ← system k epoll_create
  m ← get_mgr
  put_mgr (record m { epoll_fd = e })
  if e ==ℤ minus_one then pure epoll_creation_err else watch_socket k

-- The loop that frees the endpoints.
free_endpoints : List Endpoint → Cmd (Unit {0})
free_endpoints [] = pure tt
free_endpoints (e ∷ es) = do release e.block; free_endpoints es

-- `if (fd >= 0) close(fd)`
close_open : ℤ → Cmd (Unit {0})
close_open n = when (not (is_negative n)) (emit (close n))

-- `sc_mgr_finish` of the manager in a block; `none` is NULL.
pub mgr_finish : Option ℕ → Cmd (Unit {0})
unfolding free_endpoints close_open
mgr_finish none = pure tt
mgr_finish (some b) = do
  pool_destroy
  m ← get_mgr
  close_open m.epoll_fd
  free_option m.events
  close_open m.fd
  free_endpoints m.endpoints
  put_mgr (record m { epoll_fd = minus_one; events = none; fd = minus_one; endpoints = [] })
  release b
