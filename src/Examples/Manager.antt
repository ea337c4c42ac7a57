-- ===== src/Examples/Manager.antt =====
-- The life of a manager and the reading of a line, at sample worlds.
use sculpt.Pool.{pool_init}
use sculpt.Base.{
  get_elem?, Bytes, length, ◌-◌, ◌++◌, arith, ◌≡◌, ◌<◌, refl, false, true, none, some, [], ◌∷◌, pos,
  suc, ◌⊎◌, ℕ, has, if◌then◌else◌, ◌==◌, ◌||◌,
}
use sculpt.Machine.{fault, World, byte, failed, ok, Kernel, Mgr, Endpoint, listen}
use sculpt.Reader.{cr, lf, next_header}
use sculpt.Machine.Reads.{Sends, reads}
use sculpt.Reader.Line.{next_header-line}
use sculpt.Machine.Returns.{Returns}
use sculpt.Sample.{kernel, mgr, world, addr, slots, pool-Valid}
use sculpt.Code.{malloc_err, ok_code}
use sculpt.Manager.{mgr_create, mgr_finish, epoll_init}
use sculpt.Manager.Create.{Made, NotMade, mgr_create-Made}
use sculpt.Manager.Watch.{Watched, epoll_init-Watched}
use sculpt.Manager.Finish.{
  mgr_finish-pool_init, farewell, mgr_finish-Finished, mgr_finish-mgr_create,
}
use sculpt.Reader.Bounds.{next_header-Bounded}

abbrev quiet_world : World
quiet_world = record world { mgr = record mgr { listening = false } }

abbrev route : Endpoint
route = record {
  block = 3;
  val = record { buf = sculpt.Machine.null; len = 0 };
  func = 0;
  soft = false;
}

-- The pool, the events, the manager and one endpoint are allocated.
abbrev full_world : World
full_world = record world {
  mgr = record mgr { endpoints = route ∷ [] };
  live = λ b. (b == 0) || ((b == 1) || ((b == 2) || (b == 3)));
  next_block = 4;
}

-- Fresh memory holds a positive bound and a NULL array.
abbrev dirty_kernel : Kernel
dirty_kernel = record (kernel true) {
  fresh_mgr = record mgr { pool = record (mgr.pool) { conns = none } };
}

epoll_init-Watched_example :
    Returns (Watched (kernel true) world) (epoll_init (kernel true) true world)
epoll_init-Watched_example = epoll_init-Watched (kernel true) world

mgr_create-Made_example :
    Returns
      (λ r v. Made (kernel true) world addr r v ⊎ NotMade (kernel true) world r v)
      (mgr_create (kernel true) addr world)
mgr_create-Made_example = mgr_create-Made (kernel true) world addr refl

mgr_finish-Finished_example :
    Returns
      (λ _ v.
        (v.trace ≡ farewell full_world slots 0 1 2)
        × ((x : ℕ)
            → v.live x ≡ (if has x (0 ∷ (1 ∷ (2 ∷ (3 ∷ [])))) then false else full_world.live x)))
      (mgr_finish (some 2) full_world)
mgr_finish-Finished_example =
    mgr_finish-Finished full_world slots (1 ∷ []) 0 1 2 pool-Valid refl refl
      (refl, (refl, (refl, (refl, tt)))) (refl, (refl, (refl, (refl, tt))))

mgr_finish-pool_init_example :
    Returns
      (λ r v.
        (r ≡ malloc_err) × ((u : World) → u.mgr.pool ≡ v.mgr.pool → mgr_finish (some 0) u ≡ fault))
      (pool_init (kernel false) true (pos 20) world)
mgr_finish-pool_init_example = mgr_finish-pool_init (kernel false) world 19 0 refl

mgr_finish-mgr_create_example :
    Returns
      (λ r v.
        r.0 ≡ ok_code
        → (v.mgr.pool ≡ dirty_kernel.fresh_mgr.pool)
          × ((u : World) → u.mgr.pool ≡ v.mgr.pool → mgr_finish r.1 u ≡ fault))
      (mgr_create dirty_kernel addr world)
mgr_finish-mgr_create_example = mgr_finish-mgr_create dirty_kernel world addr 1 refl refl refl

next_header-Bounded_example :
    Returns (λ r v. length r.1 < suc 1023) (next_header (kernel true) (pos 5) (suc 1023) world)
next_header-Bounded_example = next_header-Bounded (kernel true) (pos 5) 1023 world

-- A client that sends `A: b` CR LF, and nothing after it.
abbrev header_line : Bytes
header_line = 65 ∷ 58 ∷ 32 ∷ 98 ∷ []

abbrev sender : Kernel
sender = record (kernel true) {
  reading = λ t. elim (get_elem? (header_line ++ cr ∷ lf ∷ []) (length t - 1)) [
    | some c ↦ byte c
    | none ↦ failed
  ];
}

header_line-Sends : Sends sender (pos 5) [] (header_line ++ cr ∷ lf ∷ [])
header_line-Sends = (refl, (refl, (refl, (refl, (refl, (refl, tt))))))

next_header-line_example :
    (next_header sender (pos 5) 1024 world
      ≡ ok
          (ok_code, header_line)
          (record world { trace = reads (pos 5) (header_line ++ cr ∷ lf ∷ []) [] }))
    × Sends sender (pos 5) (reads (pos 5) (header_line ++ cr ∷ lf ∷ []) []) []
next_header-line_example =
    next_header-line sender (pos 5) world header_line [] 1024 refl refl (omega arith)
      header_line-Sends
