-- ===== src/Pool.antt =====
-- The connection pool of src/sculpt_conn.c: an array of connections whose free slots are linked
-- through `next`, and a count of the others.
pub mod Valid
pub mod Loop
pub mod Halts
pub mod Frame
pub mod Slots
pub mod Preserve
pub mod Take
pub mod Release
pub mod Init
pub mod Expire
pub mod Cleanup
pub mod Stack
pub mod Young
pub mod Destroy
use sculpt.Base.{
  ℕ, zero, suc, ◌+◌, ◌-◌, ◌^◌, Bool, true, false, ◌&&◌, ◌||◌, Option, none, some, List, [], ◌∷◌,
  if◌then◌else◌, get_elem?, set, ℤ, pos, negsuc, ◌+ℤ◌, ◌-ℤ◌, ltb_ℤ, minus_one, ◌*◌, pos_part,
}
use sculpt.Machine.{
  Conn, ConnState, idle, active, closing, Pool, Kernel, Cmd, pure, ◌>>=◌, ◌>>◌, need, emit, get_mgr,
  put_pool, when, get_time, shutdown, close, epoll_ctl, delete, put_mgr, crash,
}
use sculpt.Machine.Heap.{alloc, release}
use sculpt.Code.{Code, ok_code, malloc_err, bad_arguments_err}

abbrev pub default_conn_timeout : ℤ
default_conn_timeout = pos 60

abbrev pub default_conn_max_age : ℤ
default_conn_max_age = pos 300

abbrev pub is_active : ConnState → Bool
is_active active = true
is_active _ = false

-- What `calloc` leaves in a slot.
abbrev zeroed : Conn
zeroed = record {
  fd = pos 0;
  last_active = pos 0;
  creation_time = pos 0;
  state = idle;
  next = none;
}

-- The slots from `i` on, `n` in number, as the loop and the two lines behind it set them.
pub link_slots : ℕ → ℕ → List Conn
link_slots i zero = []
link_slots i (suc zero) = record zeroed { next = none; state = idle } ∷ []
link_slots i (suc (suc n)) =
    record zeroed { next = some (suc i); state = idle } ∷ link_slots (suc i) (suc n)

-- `mgr->conn_pool[i]`
pub load_conn : ℕ → Cmd Conn
load_conn i = do m ← get_mgr; cs ← need m.pool.conns; need (get_elem? cs i)

take_free : Kernel → Cmd (Option ℕ)
unfolding load_conn
take_free k = do
  m ← get_mgr
  i ← need m.pool.free_conns
  c ← load_conn i
  cs ← need m.pool.conns
  now ← get_time k
  put_pool (record (m.pool) {
    conns = some (
        set cs i
          (record c { last_active = now; creation_time = now; state = active; fd = minus_one }));
    free_conns = c.next;
    conn_count = m.pool.conn_count +ℤ pos 1;
  })
  pure (some i)

-- `sc_mgr_conn_get_free`; `given` is false for a NULL manager.
pub get_free : Kernel → (given : Bool) → Cmd (Option ℕ)
unfolding take_free
get_free k false = pure none
get_free k true = do
  m ← get_mgr
  if ltb_ℤ m.pool.conn_count m.pool.max_conn_count then take_free k else pure none

-- `sc_mgr_conn_release`
pub release_conn : Kernel → Option ℕ → Cmd (Unit {0})
unfolding load_conn
release_conn k none = pure tt
release_conn k (some i) = do
  c ← load_conn i
  now ← get_time k
  m ← get_mgr
  cs ← need m.pool.conns
  put_pool (record (m.pool) {
    conns =
        some (set cs i (record c { state = closing; last_active = now; next = m.pool.free_conns }));
    free_conns = some i;
    conn_count = m.pool.conn_count -ℤ pos 1;
  })

-- The size of `sc_conn` with its padding, on the 64-bit machines that have epoll.
abbrev conn_size : ℕ
conn_size = 40

-- An `int` as a `size_t`.
abbrev pub to_size : ℤ → ℕ
to_size (pos n) = n
to_size (negsuc n) = 2 ^ 64 - suc n

-- The rest of `sc_mgr_conn_pool_init` once `calloc` has returned. The last slot is written at
-- `max_conns - 1`, which lies outside the array unless `max_conns` is positive.
fill_pool : Option ℕ → ℤ → Cmd Code
fill_pool none max = do
  m ← get_mgr
  put_mgr (record m { pool = record (m.pool) { conns = none }; pool_block = none })
  pure malloc_err
fill_pool (some b) (negsuc n) = crash
fill_pool (some b) (pos zero) = crash
fill_pool (some b) (pos (suc n)) = do
  m ← get_mgr
  put_mgr (record m {
    pool = record (m.pool) {
      conns = some (link_slots 0 (suc n));
      free_conns = some 0;
      conn_timeout = default_conn_timeout;
      conn_max_age = default_conn_max_age;
    };
    pool_block = some b;
  })
  pure ok_code

-- `sc_mgr_conn_pool_init`
unfoldable pub pool_init : Kernel → (given : Bool) → ℤ → Cmd Code
unfolding fill_pool
pool_init k false max = pure bad_arguments_err
pool_init k true max = do
  m ← get_mgr
  put_pool (record (m.pool) { max_conn_count = max; conn_count = pos 0 })
  r ← alloc k (to_size max * conn_size)
  fill_pool r max

-- The test of `sc_mgr_conns_cleanup`: active, and unused or alive for longer than allowed.
unfoldable pub is_expired : ℤ → Pool → Conn → Bool
is_expired now p c =
    is_active c.state
    && (ltb_ℤ p.conn_timeout (now -ℤ c.last_active)
        || ltb_ℤ p.conn_max_age (now -ℤ c.creation_time))

-- The body of the loop.
pub expire : Kernel → ℤ → ℕ → Cmd (Unit {0})
unfolding load_conn
expire k now i = do
  c ← load_conn i
  m ← get_mgr
  when (is_expired now m.pool c) do
    emit (shutdown c.fd)
    emit (close c.fd)
    emit (epoll_ctl delete m.epoll_fd c.fd)
    release_conn k (some i)

-- `n` rounds, from slot `i` on.
cleanup_loop : Kernel → ℤ → ℕ → ℕ → Cmd (Unit {0})
cleanup_loop k now zero i = pure tt
cleanup_loop k now (suc n) i = do expire k now i; cleanup_loop k now n (suc i)

-- `sc_mgr_conns_cleanup`. The index is a `size_t`, so the bound is converted to one.
pub conns_cleanup : Kernel → Cmd (Unit {0})
unfolding cleanup_loop expire
conns_cleanup k = do
  now ← get_time k
  m ← get_mgr
  cleanup_loop k now (to_size m.pool.max_conn_count) 0

-- `n` rounds of the loop of `sc_mgr_conn_pool_destroy`, from slot `i` on.
destroy_loop : ℕ → ℕ → Cmd (Unit {0})
unfolding load_conn
destroy_loop zero i = pure tt
destroy_loop (suc n) i = do
  c ← load_conn i
  when (is_active c.state) (emit (close c.fd))
  destroy_loop n (suc i)

abbrev pub free_option : Option ℕ → Cmd (Unit {0})
free_option none = pure tt
free_option (some b) = release b

-- `sc_mgr_conn_pool_destroy`. Here the index is an `int`.
pub pool_destroy : Cmd (Unit {0})
unfolding destroy_loop
pool_destroy = do
  m ← get_mgr
  destroy_loop (pos_part m.pool.max_conn_count) 0
  free_option m.pool_block
  put_mgr
      (record m { pool = record (m.pool) { conns = none; free_conns = none }; pool_block = none })
