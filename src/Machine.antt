-- ===== src/Machine.antt =====
-- The structs of src/sculpt.h, the calls that the program makes to the system, and the monad of
-- its stateful functions.
-- The system is a parameter: a `Kernel` answers each call from the history of the calls before it,
-- so a theorem about every kernel covers every behaviour of the network, the clock and `malloc`.
pub mod Blocks
pub mod Frame
pub mod Halts
pub mod Heap
pub mod Holding
pub mod Lost
pub mod Occurs
pub mod Reads
pub mod Returns
pub mod Since
use sculpt.Base.{
  ℕ, zero, suc, Bool, true, false, Option, none, some, List, [], ◌∷◌, ◌+◌, ◌==◌, if◌then◌else◌, ℤ,
  pos, Bytes, minus_one, ◌==ℤ◌,
}

-- What a `char *` points at: nothing, an address that was never set, or bytes. `block` names the
-- allocation that `free` gives back; a literal or a buffer on the stack has none.
pub data Buffer : Type 0 where
  null : Buffer
  wild : Buffer
  at : (block : Option ℕ) → (bytes : Bytes) → Buffer

-- `sc_str`
pub record Str : Type 0 where
  pub buf : Buffer
  pub len : ℕ

-- `sc_http_msg`
pub record HttpMsg : Type 0 where
  pub uri : Str
  pub method : Str

-- A node of `sc_headers`; the list stands for the chain of `next` pointers. No code writes to a
-- node after it is made.
pub record Header : Type 0 where
  pub block : ℕ
  pub header : Str

pub data ConnState : Type 0 where
  idle active closing : ConnState

-- `sc_conn`. A pointer into the pool is an index, and `none` is NULL.
pub record Conn : Type 0 where
  pub fd : ℤ
  pub last_active : ℤ
  pub creation_time : ℤ
  pub state : ConnState
  pub next : Option ℕ

-- The connection pool's fields of `sc_conn_mgr`. `conns` is what `conn_pool` points at.
pub record Pool : Type 0 where
  pub conns : Option (List Conn)
  pub free_conns : Option ℕ
  pub max_conn_count : ℤ
  pub conn_count : ℤ
  pub conn_timeout : ℤ
  pub conn_max_age : ℤ

-- `struct _endpoint_list`, one node. `func` is the address of the handler.
pub record Endpoint : Type 0 where
  pub block : ℕ
  pub val : Str
  pub func : ℕ
  pub soft : Bool

-- `sc_addr_info`
pub record AddrInfo : Type 0 where
  pub sin_family : ℤ
  pub sin_port : ℕ
  pub s_addr : ℕ
  pub port : ℤ

-- `epoll_data_t` is a union: a descriptor or a pointer.
pub data EpollData : Type 0 where
  fd : ℤ → EpollData
  ptr : Option ℕ → EpollData

-- The bits of an event's mask that the program reads.
pub record Event : Type 0 where
  pub err : Bool
  pub hup : Bool
  pub rdhup : Bool
  pub readable : Bool
  pub payload : EpollData

-- `sc_conn_mgr`
pub record Mgr : Type 0 where
  pub addr_info : AddrInfo
  pub fd : ℤ
  pub backlog : ℤ
  pub pool : Pool
  pub pool_block : Option ℕ
  pub epoll_fd : ℤ
  pub events : Option ℕ
  pub max_events : ℕ
  pub endpoints : List Endpoint
  pub listening : Bool
  pub ll : ℤ

-- `epoll_ctl`'s operation, with the data that it registers.
pub data EpollOp : Type 0 where
  add modify : EpollData → EpollOp
  delete : EpollOp

-- The calls to the system, to the C library's allocator, and to the handlers of the application.
pub data Call : Type 0 where
  time : Call
  malloc : ℕ → Call
  free : ℕ → Call
  read : ℤ → Call
  accept : ℤ → Call
  close : ℤ → Call
  shutdown : ℤ → Call
  send : ℤ → Bytes → Call
  fcntl_get : ℤ → Call
  fcntl_set : ℤ → Call
  epoll_create : Call
  epoll_ctl : EpollOp → ℤ → ℤ → Call
  epoll_wait : ℤ → ℕ → ℤ → Call
  socket : Call
  setsockopt : ℤ → Call
  bind : ℤ → AddrInfo → Call
  listen : ℤ → ℤ → Call
  getnameinfo : AddrInfo → Call
  handler : ℕ → ℤ → HttpMsg → List Header → Call
  print : Bytes → Call

-- The latest call stands first.
abbrev pub Trace : Type 0
Trace = List Call

pub data Errno : Type 0 where
  eagain ewouldblock eintr other : Errno

-- What `read` of one byte gives.
pub data Reading : Type 0 where
  byte : ℕ → Reading
  eof failed : Reading

-- `live` says which allocations have not been freed; `next_block` is above every one made.
pub record World : Type 0 where
  pub mgr : Mgr
  pub trace : Trace
  pub live : ℕ → Bool
  pub next_block : ℕ

-- `fault` is undefined behaviour: a bad pointer, a write past a buffer, a second `free`.
pub data Run (A : Type 0) : Type 0 where
  ok : A → World → Run A
  fault : Run A
  out_of_fuel : Run A

abbrev pub Cmd : Type 0 → Type 0
Cmd A = World → Run A

-- The answers. Each is given the history, the call itself included. `run_handler` is the application's code: what the function
-- at an address does when it is called as a handler.
pub record Kernel : Type 0 where
  pub result : Trace → ℤ
  pub errno : Trace → Errno
  pub clock : Trace → ℤ
  pub grants : Trace → Bool
  pub reading : Trace → Reading
  pub ready : Trace → Option (List Event)
  -- what `accept` leaves in the address that it is given
  pub peer : Trace → AddrInfo → AddrInfo
  -- what the stack and fresh memory hold before they are written
  pub stack_msg : Trace → HttpMsg
  pub fresh_mgr : Mgr
  -- the low 32 bits of the address of a slot of the pool
  pub low_bits : ℕ → ℤ
  pub run_handler : ℕ → ℤ → HttpMsg → List Header → Cmd (Unit {0})

abbrev pub pure : {A : Type 0} → A → Cmd A
pure = ok

abbrev pub crash : {A : Type 0} → Cmd A
crash w = fault

module _ {A B : Type 0} where
  abbrev pub and_then : Run A → (A → Cmd B) → Run B
  and_then (ok a w) k = k a w
  and_then fault k = fault
  and_then out_of_fuel k = out_of_fuel

  infixl 5 ◌>>=◌ ◌>>◌
  abbrev pub ◌>>=◌ : Cmd A → (A → Cmd B) → Cmd B
  m >>= k = λ w. and_then (m w) k

  abbrev pub ◌>>◌ : Cmd A → Cmd B → Cmd B
  m >> n = m >>= λ _. n

-- A value that a pointer or an index must yield.
abbrev pub need : {A : Type 0} → Option A → Cmd A
need none = crash
need (some a) = pure a

-- A call whose result is not used.
abbrev pub log : Call → World → World
log c w = record w { trace = c ∷ w.trace }

abbrev pub emit : Call → Cmd (Unit {0})
emit c w = ok tt (log c w)

abbrev pub get_mgr : Cmd Mgr
get_mgr w = ok w.mgr w

abbrev pub get_trace : Cmd Trace
get_trace w = ok w.trace w

abbrev pub put_mgr : Mgr → Cmd (Unit {0})
put_mgr m w = ok tt (record w { mgr = m })

abbrev pub put_pool : Pool → Cmd (Unit {0})
put_pool p w = ok tt (record w { mgr = record (w.mgr) { pool = p } })

abbrev pub when : Bool → Cmd (Unit {0}) → Cmd (Unit {0})
when true c = c
when false c = pure tt

module _ (k : Kernel) where
  -- A call that returns an `int`.
  abbrev pub system : Call → Cmd ℤ
  system c w = ok (k.result (c ∷ w.trace)) (log c w)

  abbrev pub get_errno : Cmd Errno
  get_errno w = ok (k.errno w.trace) w

  abbrev pub get_time : Cmd ℤ
  get_time w = ok (k.clock (time ∷ w.trace)) (log time w)
