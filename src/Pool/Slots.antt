-- ===== src/Pool/Slots.antt =====
-- What a write to one slot does to the free list and to the number of active slots.
use sculpt.Base.{
  refl, ℕ, zero, suc, ◌+◌, ◌≡◌, true, false, Option, some, List, [], ◌∷◌, if◌then◌else◌, get_elem?,
  set, has, arith, get_elem?-set_ne, get_elem?-set_self, lt_of_get_elem?,
}
use sculpt.Machine.{Conn, World, ok, need, and_then}
use sculpt.Pool.{is_active, load_conn}
use sculpt.Pool.Valid.{actives, Chain}

abbrev weight : Conn → ℕ
weight c = if is_active c.state then 1 else 0

pub actives-set :
    (cs : List Conn) (i : ℕ) (c v : Conn)
    → get_elem? cs i ≡ some c
    → actives (set cs i v) + weight c ≡ actives cs + weight v
unfolding actives
actives-set [] i c v h = ground arith
actives-set (x ∷ cs) zero c v h = ground arith
actives-set (x ∷ cs) (suc i) c v h = omega (arith, actives-set cs i c v h)

pub actives-set_claim :
    (cs : List Conn) (i : ℕ) (c v : Conn)
    → get_elem? cs i ≡ some c
    → is_active c.state ≡ false
    → is_active v.state ≡ true
    → actives (set cs i v) ≡ suc (actives cs)
actives-set_claim cs i c v h off on = ground (arith, actives-set cs i c v h)

pub actives-set_give :
    (cs : List Conn) (i : ℕ) (c v : Conn)
    → get_elem? cs i ≡ some c
    → is_active c.state ≡ true
    → is_active v.state ≡ false
    → actives cs ≡ suc (actives (set cs i v))
actives-set_give cs i c v h on off = ground (arith, actives-set cs i c v h)

pub actives-set_still :
    (cs : List Conn) (i : ℕ) (c v : Conn)
    → get_elem? cs i ≡ some c
    → is_active v.state ≡ is_active c.state
    → actives (set cs i v) ≡ actives cs
actives-set_still cs i c v h same = ground (arith, actives-set cs i c v h)

-- A slot off the list may be written without a change to the list.
pub Chain-set :
    (cs : List Conn) (p : Option ℕ) (free : List ℕ) (j : ℕ) (v : Conn)
    → has j free ≡ false
    → Chain cs p free
    → Chain (set cs j v) p free
Chain-set cs p [] j v out e = e
Chain-set cs p (i ∷ free) j v out (e, (c, at_i, inactive, rest)) = (
  e,
  (
    c,
    ground (arith, get_elem?-set_ne cs j i v),
    inactive,
    Chain-set cs c.next free j v (ground arith) rest,
  ),
)

-- A slot on the list is not active.
pub inactive_of_has :
    (cs : List Conn) (p : Option ℕ) (free : List ℕ) (i : ℕ) (c : Conn)
    → Chain cs p free
    → get_elem? cs i ≡ some c
    → has i free ≡ true
    → is_active c.state ≡ false
inactive_of_has cs p [] i c ch h m = cc
inactive_of_has cs p (j ∷ free) i c (e, (d, at_j, inactive, rest)) h m =
    ground (arith, inactive_of_has cs d.next free i c rest h)

pub not-has_of_active :
    (cs : List Conn) (p : Option ℕ) (free : List ℕ) (i : ℕ) (c : Conn)
    → Chain cs p free
    → get_elem? cs i ≡ some c
    → is_active c.state ≡ true
    → has i free ≡ false
not-has_of_active cs p free i c ch h a = ground (arith, inactive_of_has cs p free i c ch h)

-- Every slot that is not active stands on the list.
abbrev pub Complete : List Conn → List ℕ → Type 0
Complete cs free =
    (j : ℕ) (d : Conn) → get_elem? cs j ≡ some d → is_active d.state ≡ false → has j free ≡ true

module _ (cs : List Conn) (i : ℕ) (c v : Conn) (free : List ℕ)
    (at_i : get_elem? cs i ≡ some c) where
  pub Complete-claim :
      is_active v.state ≡ true → Complete cs (i ∷ free) → Complete (set cs i v) free
  Complete-claim act all j d at_j inactive = ground (
    arith,
    get_elem?-set_self cs i v (lt_of_get_elem? cs i at_i),
    get_elem?-set_ne cs i j v,
    all j d,
  )

  pub Complete-give : Complete cs free → Complete (set cs i v) (i ∷ free)
  Complete-give all j d at_j inactive = ground (arith, get_elem?-set_ne cs i j v, all j d)

  pub Complete-still :
      is_active v.state ≡ is_active c.state → Complete cs free → Complete (set cs i v) free
  Complete-still same all j d at_j inactive = ground (
    arith,
    get_elem?-set_self cs i v (lt_of_get_elem? cs i at_i),
    get_elem?-set_ne cs i j v,
    all j d,
    all j c,
  )

-- A slot in range is read without a fault.
pub load_conn-ok :
    (w : World) (cs : List Conn) (i : ℕ) (c : Conn)
    → w.mgr.pool.conns ≡ some cs
    → get_elem? cs i ≡ some c
    → load_conn i w ≡ ok c w
unfolding load_conn
load_conn-ok w cs i c array at_i = go w.mgr.pool.conns array
  where
    go :
        (o : Option (List Conn))
        → o ≡ some cs
        → and_then (need o w) (λ ds. need (get_elem? ds i)) ≡ ok c w
    go o e = rw e (rw at_i refl)
