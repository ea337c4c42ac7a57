-- ===== src/Pool/Init.antt =====
-- `sc_mgr_conn_pool_init`: the pool that it builds is valid, with every slot free.
use sculpt.Base.{
  ◌==◌, if◌then◌else◌, Distinct, ℕ, zero, suc, ◌+◌, ◌≡◌, ◌<◌, refl, true, false, Option, none, some,
  List, [], ◌∷◌, get_elem?, length, pos, arith, ap, ◌==◌, has, ◌⊎◌, inl, inr, if◌then◌else◌,
  Bool-cases, sym, ◌∙◌, lt_of_get_elem?, ◌*◌, ◌≤◌,
}
use sculpt.Machine.{World, Kernel, Pool, malloc}
use sculpt.Machine.Heap.{alloc}
use sculpt.Machine.Returns.{Returns, returns}
use sculpt.Code.{Code, ok_code, malloc_err}
use sculpt.Pool.{
  link_slots, pool_init, fill_pool, zeroed, default_conn_timeout, default_conn_max_age,
}
use sculpt.Pool.Valid.{actives, Chain, Valid}

-- `i`, `i + 1`, and so on, `n` in number.
abbrev pub range : ℕ → ℕ → List ℕ
range i zero = []
range i (suc n) = i ∷ range (suc i) n

length-range : (i n : ℕ) → length (range i n) ≡ n
length-range i zero = refl
length-range i (suc n) = ap suc (length-range (suc i) n)

has-range_below : (a i n : ℕ) → a < i → has a (range i n) ≡ false
has-range_below a i zero h = refl
has-range_below a i (suc n) h = ground (arith, has-range_below a (suc i) n)

has-range : (a i n : ℕ) → i ≤ a → a < i + n → has a (range i n) ≡ true
has-range a i zero h l = absurd (omega arith)
has-range a i (suc n) h l = ground (arith, has-range a (suc i) n)

Distinct-range : (i n : ℕ) → Distinct (range i n)
Distinct-range i zero = tt
Distinct-range i (suc n) = (has-range_below i (suc i) n (omega arith), Distinct-range (suc i) n)

length-link_slots : (i n : ℕ) → length (link_slots i n) ≡ n
unfolding link_slots
length-link_slots i zero = refl
length-link_slots i (suc zero) = refl
length-link_slots i (suc (suc n)) = ap suc (length-link_slots (suc i) (suc n))

actives-link_slots : (i n : ℕ) → actives (link_slots i n) ≡ 0
unfolding link_slots actives
actives-link_slots i zero = refl
actives-link_slots i (suc zero) = refl
actives-link_slots i (suc (suc n)) = omega (arith, actives-link_slots (suc i) (suc n))

-- Where slot `j` of a pool of `n` points.
abbrev next_of : ℕ → ℕ → Option ℕ
next_of j n = if suc j == n then none else some j

-- Slot `j` of the slots from `i` on.
get_elem?-link_slots :
    (i n j : ℕ)
    → suc j < n
    → get_elem? (link_slots i n) j ≡ some (record zeroed { next = some (suc (j + i)) })
unfolding link_slots
get_elem?-link_slots i zero j h = absurd (omega arith)
get_elem?-link_slots i (suc zero) j h = absurd (omega arith)
get_elem?-link_slots i (suc (suc n)) zero h = ground arith
get_elem?-link_slots i (suc (suc n)) (suc j) h =
    let e : suc j + i ≡ j + suc i = omega arith in
    rw e (get_elem?-link_slots (suc i) (suc n) j (omega arith))

get_elem?-link_slots_last :
    (i n : ℕ) → get_elem? (link_slots i (suc n)) n ≡ some (record zeroed { next = none })
unfolding link_slots
get_elem?-link_slots_last i zero = refl
get_elem?-link_slots_last i (suc n) = get_elem?-link_slots_last (suc i) n

-- From slot `i` the pointers lead through all the slots that follow it.
Chain-link_slots : (m i n : ℕ) → i + suc m ≡ n → Chain (link_slots 0 n) (some i) (range i (suc m))
Chain-link_slots zero i n e =
    let last : n ≡ suc i = omega arith in
    (refl, (record zeroed { next = none }, rw last (get_elem?-link_slots_last 0 i), refl, refl))
Chain-link_slots (suc m) i n e = (
  refl,
  (
    record zeroed { next = some (suc i) },
    get_elem?-link_slots 0 n i (omega arith)
        ∙ ap (λ j. some (record zeroed { next = some (suc j) })) (omega arith),
    refl,
    Chain-link_slots m (suc i) n (omega arith),
  ),
)

-- `p` is a pool of `n` slots as the initialiser leaves it.
init-Valid :
    (p : Pool) (n : ℕ)
    → p.conns ≡ some (link_slots 0 (suc n))
    → p.free_conns ≡ some 0
    → p.max_conn_count ≡ pos (suc n)
    → p.conn_count ≡ pos 0
    → Valid p (link_slots 0 (suc n)) (range 0 (suc n))
init-Valid p n array head size count =
    let len = length-link_slots 0 (suc n) in
    let none_active = actives-link_slots 0 (suc n) in
    record {
      array = array;
      chain = rw head (Chain-link_slots n 0 (suc n) (omega arith));
      distinct = Distinct-range 0 (suc n);
      complete = λ i c at_i off.
          has-range i 0 (suc n) (omega arith)
            (omega (arith, lt_of_get_elem? (link_slots 0 (suc n)) i at_i, len));
      size = size ∙ ap pos (sym len);
      count = count ∙ ap pos (sym none_active);
      total = omega (arith, len, none_active, length-range 0 (suc n));
    }

-- The pool is ready, in a new block.
abbrev pub PoolReady : ℕ → World → Code → World → Type 0
PoolReady n w r v =
    (r ≡ ok_code)
    × Valid v.mgr.pool (link_slots 0 (suc n)) (range 0 (suc n))
    × (v.mgr.pool_block ≡ some w.next_block)
    × (v.mgr.pool.conn_timeout ≡ default_conn_timeout)
    × (v.mgr.pool.conn_max_age ≡ default_conn_max_age)
    × (v.mgr ≡ record (w.mgr) { pool = v.mgr.pool; pool_block = v.mgr.pool_block })
    × ((x : ℕ) → v.live x ≡ (if x == w.next_block then true else w.live x))
    × (v.next_block ≡ w.next_block + 1)

-- The pool is ready, or the array could not be had and the pool has none.
abbrev pub Ready : ℕ → World → Code → World → Type 0
Ready n w r v =
    PoolReady n w r v
    ⊎ ((r ≡ malloc_err)
        × (v.mgr.pool.conns ≡ none)
        × (v.mgr.pool_block ≡ none)
        × (v.mgr.pool.max_conn_count ≡ pos (suc n)))

-- For a positive number of connections `sc_mgr_conn_pool_init` does not fault, and either reports
-- success, with a valid pool in which every slot is free in order and the default limits stand, in
-- one new block and with the rest of the manager as it was, or
-- reports SC_MALLOC_ERR, with no array behind the bound that it has stored.
pub pool_init-Ready :
    (k : Kernel) (w : World) (n : ℕ) → Returns (Ready n w) (pool_init k true (pos (suc n)) w)
unfolding pool_init fill_pool alloc
pool_init-Ready k w n = elim (Bool-cases (k.grants (malloc (suc n * 40) ∷ w.trace))) [
  | inl e ↦ rw e (
      returns
        (inl (refl, init-Valid _ n refl refl refl refl, refl, refl, refl, refl, (λ x. refl), refl)))
  | inr e ↦ rw e (returns (inr (refl, refl, refl, refl)))
]
