-- ===== src/Pool/Valid.antt =====
-- The pool's invariant: the free list runs through distinct slots, which are exactly those that are
-- not active, and the count is the number of active ones.
use sculpt.Base.{
  Distinct, ℕ, ◌+◌, ◌≡◌, true, false, Option, none, some, List, [], ◌∷◌, if◌then◌else◌, length,
  get_elem?, has, pos,
}
use sculpt.Machine.{Conn, Pool}
use sculpt.Pool.{is_active}

-- The number of active slots.
unfoldable pub actives : List Conn → ℕ
actives [] = 0
actives (c ∷ cs) = (if is_active c.state then 1 else 0) + actives cs

-- From the pointer `p` the `next` fields lead through the slots `free`, none of them active.
abbrev pub Chain : List Conn → Option ℕ → List ℕ → Type 0
Chain cs p [] = p ≡ none
Chain cs p (i ∷ free) =
    (p ≡ some i)
    × ((c : Conn) × (get_elem? cs i ≡ some c) × (is_active c.state ≡ false) × Chain cs c.next free)

pub record Valid (p : Pool) (cs : List Conn) (free : List ℕ) : Type 0 where
  pub array : p.conns ≡ some cs
  pub chain : Chain cs p.free_conns free
  pub distinct : Distinct free
  pub complete :
      (i : ℕ) (c : Conn) → get_elem? cs i ≡ some c → is_active c.state ≡ false → has i free ≡ true
  pub size : p.max_conn_count ≡ pos (length cs)
  pub count : p.conn_count ≡ pos (actives cs)
  pub total : actives cs + length free ≡ length cs

abbrev pub SameLimits : Pool → Pool → Type 0
SameLimits p q = (q.conn_timeout ≡ p.conn_timeout) × (q.conn_max_age ≡ p.conn_max_age)
