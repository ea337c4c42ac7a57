-- ===== src/Sample.antt =====
-- A kernel, a pool of two slots and a world, for the examples and the tests.
use sculpt.Base.{
  ℕ, zero, suc, ◌≡◌, refl, Bool, true, false, none, some, List, [], ◌∷◌, pos, get_elem?, has, arith,
  ◌==◌, ◌||◌,
}
use sculpt.Machine.{
  pure, Kernel, Conn, Pool, Mgr, World, Str, AddrInfo, wild, active, idle, eagain, eof,
}
use sculpt.Pool.{is_active}
use sculpt.Pool.Valid.{Valid, actives}

abbrev pub empty_str : Str
empty_str = record { buf = wild; len = 0 }

abbrev pub addr : AddrInfo
addr = record { sin_family = pos 2; sin_port = 16415; s_addr = 16777343; port = pos 8000 }

-- Slot 0 holds descriptor 5, last used at 100; slot 1 is free.
abbrev pub busy : Conn
busy = record {
  fd = pos 5;
  last_active = pos 100;
  creation_time = pos 90;
  state = active;
  next = some 1;
}

abbrev pub unused : Conn
unused = record {
  fd = pos 0;
  last_active = pos 0;
  creation_time = pos 0;
  state = idle;
  next = none;
}

abbrev pub slots : List Conn
slots = busy ∷ unused ∷ []

abbrev pub pool : Pool
pool = record {
  conns = some slots;
  free_conns = some 1;
  max_conn_count = pos 2;
  conn_count = pos 1;
  conn_timeout = pos 60;
  conn_max_age = pos 300;
}

abbrev pub mgr : Mgr
mgr = record {
  addr_info = addr;
  fd = pos 3;
  backlog = pos 128;
  pool = pool;
  pool_block = some 0;
  epoll_fd = pos 4;
  events = some 1;
  max_events = 12;
  endpoints = [];
  listening = true;
  ll = pos 0;
}

-- Blocks 0 and 1 are in use.
abbrev pub world : World
world = record { mgr = mgr; trace = []; live = λ b. (b == 0) || (b == 1); next_block = 2 }

-- Every call succeeds with 7, the clock stands at 1000 and memory is granted as told.
abbrev pub kernel : Bool → Kernel
kernel memory = record {
  result = λ t. pos 7;
  errno = λ t. eagain;
  clock = λ t. pos 1000;
  grants = λ t. memory;
  reading = λ t. eof;
  ready = λ t. none;
  stack_msg = λ t. record { uri = empty_str; method = empty_str };
  fresh_mgr = mgr;
  peer = λ t a. record a { sin_port = 4660 };
  low_bits = λ i. pos 1000000;
  run_handler = λ f fd msg headers. pure tt;
}

abbrev Off : ℕ → Type 0
Off i = (c : Conn) → get_elem? slots i ≡ some c → is_active c.state ≡ false → has i (1 ∷ []) ≡ true

slots-Off : (i : ℕ) → Off i
slots-Off zero c h off = ground arith
slots-Off (suc zero) c h off = refl
slots-Off (suc (suc i)) c h off = cc

pub pool-Valid : Valid pool slots (1 ∷ [])
unfolding actives
pool-Valid = record {
  array = refl;
  chain = (refl, (unused, refl, refl, refl));
  distinct = (refl, tt);
  complete = slots-Off;
  size = refl;
  count = refl;
  total = refl;
}
