-- ===== src/Pool/Destroy.antt =====
-- `sc_mgr_conn_pool_destroy`: on a valid pool, and after an initialisation that failed.
use sculpt.Base.{
  inl, inr, ℕ, zero, suc, ◌+◌, ◌≡◌, refl, true, false, none, some, List, [], ◌∷◌, pos, length,
  arith, ap, if◌then◌else◌, drop, drop-get_elem?, drop-all, get_elem?-lt, Bool-cases, pos_part, ◌*◌,
}
use sculpt.Machine.{Conn, World, Kernel, Trace, close, free, malloc, ok, fault, and_then, log}
use sculpt.Machine.Heap.{mark, alloc, release}
use sculpt.Code.{malloc_err}
use sculpt.Pool.{is_active, load_conn, destroy_loop, pool_destroy, pool_init, fill_pool}
use sculpt.Pool.Slots.{load_conn-ok}
use sculpt.Pool.Valid.{Valid}

-- The descriptors of the active connections are closed, in the order of their slots.
pub closings : List Conn → Trace → Trace
closings [] t = t
closings (c ∷ cs) t = closings cs (if is_active c.state then close c.fd ∷ t else t)

closings-active :
    (c : Conn) (cs : List Conn) (t : Trace)
    → is_active c.state ≡ true
    → closings (c ∷ cs) t ≡ closings cs (close c.fd ∷ t)
unfolding closings
closings-active c cs t on = rw on refl

closings-inactive :
    (c : Conn) (cs : List Conn) (t : Trace)
    → is_active c.state ≡ false
    → closings (c ∷ cs) t ≡ closings cs t
unfolding closings
closings-inactive c cs t off = rw off refl

destroy_loop-closings :
    (n i : ℕ) (w : World) (cs : List Conn)
    → w.mgr.pool.conns ≡ some cs
    → i + n ≡ length cs
    → destroy_loop n i w ≡ ok tt (record w { trace = closings (drop i cs) w.trace })
unfolding destroy_loop
destroy_loop-closings zero i w cs array e =
    rw (drop-all cs i (omega arith)) (unfold closings in refl)
destroy_loop-closings (suc n) i w cs array e =
    let (c, at_i) = get_elem?-lt cs i (omega arith) in
    rw (load_conn-ok w cs i c array at_i, drop-get_elem? cs i c at_i)
      (elim (Bool-cases (is_active c.state)) [
        | inl on ↦
            rw (on, closings-active c (drop (suc i) cs) w.trace on)
              (destroy_loop-closings n (suc i) (log (close c.fd) w) cs array (omega arith))
        | inr off ↦
            rw (off, closings-inactive c (drop (suc i) cs) w.trace off)
              (destroy_loop-closings n (suc i) w cs array (omega arith))
      ])

-- The world after the pool in block `b` is gone.
abbrev pub destroyed : World → List Conn → ℕ → World
destroyed w cs b = record w {
  mgr = record (w.mgr) {
    pool = record (w.mgr.pool) { conns = none; free_conns = none };
    pool_block = none;
  };
  trace = free b ∷ closings cs w.trace;
  live = mark w.live b false;
}

-- On a valid pool whose array is a live allocation, `sc_mgr_conn_pool_destroy` closes exactly the
-- descriptors of the active connections, in order, then frees the array once and clears both
-- pointers, and changes nothing else.
pub pool_destroy-destroyed :
    (w : World) (cs : List Conn) (slots : List ℕ) (b : ℕ)
    → Valid w.mgr.pool cs slots
    → w.mgr.pool_block ≡ some b
    → w.live b ≡ true
    → pool_destroy w ≡ ok tt (destroyed w cs b)
unfolding pool_destroy release
pool_destroy-destroyed w cs slots b valid block held =
    let rounds : pos_part w.mgr.pool.max_conn_count ≡ length cs = ap pos_part valid.size in
    rw (destroy_loop-closings (pos_part w.mgr.pool.max_conn_count) 0 w cs valid.array (omega arith))
      (rw (block, held) refl)

-- With a positive bound and no array the loop reads the first slot through NULL.
pub pool_destroy-fault :
    (w : World) (n : ℕ)
    → w.mgr.pool.max_conn_count ≡ pos (suc n)
    → w.mgr.pool.conns ≡ none
    → pool_destroy w ≡ fault
unfolding pool_destroy destroy_loop load_conn
pool_destroy-fault w n size array = rw (size, array) refl

-- Without memory for the array `sc_mgr_conn_pool_init` leaves a bound and no array.
pub pool_init-refused :
    (k : Kernel) (w : World) (n : ℕ)
    → k.grants (malloc (suc n * 40) ∷ w.trace) ≡ false
    → (v : World) × (pool_init k true (pos (suc n)) w ≡ ok malloc_err v)
      × (v.mgr.pool.max_conn_count ≡ pos (suc n))
      × (v.mgr.pool.conns ≡ none)
unfolding pool_init fill_pool alloc
pool_init-refused k w n refused = rw refused (_, refl, refl, refl)

-- After an initialisation that could not allocate its array, `sc_mgr_conn_pool_destroy` faults: the
-- bound is already stored, and the loop reads the first slot through the NULL pointer.
pub pool_destroy-pool_init :
    (k : Kernel) (w : World) (n : ℕ)
    → k.grants (malloc (suc n * 40) ∷ w.trace) ≡ false
    → and_then (pool_init k true (pos (suc n)) w) (λ _. pool_destroy) ≡ fault
unfolding pool_init fill_pool alloc pool_destroy destroy_loop load_conn
pool_destroy-pool_init k w n refused = rw refused refl
