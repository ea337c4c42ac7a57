-- ===== src/Pool/Halts.antt =====
-- The functions of the pool always end.
use sculpt.Base.{ℕ, ◌≡◌, refl, List, ◌∙◌, true, zero, suc, ℤ, Option, none, some, get_elem?}
use sculpt.Machine.{Conn, need, Kernel, World, pure, log, time}
use sculpt.Machine.Halts.{
  Any, when-Halts, if-Halts, faults, Halts-mono, Halts, halts, and_then-Halts, need-Halts,
}
use sculpt.Pool.{
  load_conn, release_conn, get_free, take_free, is_expired, expire, cleanup_loop, conns_cleanup,
}

need-some :
    {A : Type 0} (o : Option A) (w : World) → Halts (λ a v. (v ≡ w) × (o ≡ some a)) (need o w)
need-some none w = faults
need-some (some a) w = halts (refl, refl)

-- A connection that is loaded stands in the array.
abbrev pub Loaded : ℕ → World → Conn → World → Type 0
Loaded i w c v =
    (v ≡ w) × ((cs : List Conn) × (w.mgr.pool.conns ≡ some cs) × (get_elem? cs i ≡ some c))

pub load_conn-Loaded : (i : ℕ) (w : World) → Halts (Loaded i w) (load_conn i w)
unfolding load_conn
load_conn-Loaded i w = and_then-Halts (need-some w.mgr.pool.conns w) λ cs v (same, array).
    Halts-mono (need-some (get_elem? cs i) v) λ c u (same', at_i). (same' ∙ same, (cs, array, at_i))

pub load_conn-Halts : (i : ℕ) (w : World) → Halts Any (load_conn i w)
load_conn-Halts i w = Halts-mono (load_conn-Loaded i w) λ c v h. tt

pub release_conn-Halts : (k : Kernel) (p : Option ℕ) (w : World) → Halts Any (release_conn k p w)
unfolding release_conn
release_conn-Halts k none w = halts tt
release_conn-Halts k (some i) w =
    and_then-Halts (load_conn-Halts i w) λ c v h.
      and_then-Halts (need-Halts {P = Any} v.mgr.pool.conns _ (λ cs. tt)) λ cs u g. halts tt

take_free-Halts : (k : Kernel) (w : World) → Halts Any (take_free k w)
unfolding take_free
take_free-Halts k w =
    and_then-Halts (need-Halts {P = Any} w.mgr.pool.free_conns w (λ i. tt)) λ i v h.
      and_then-Halts (load_conn-Halts i v) λ c u g.
        and_then-Halts (need-Halts {P = Any} w.mgr.pool.conns u (λ cs. tt)) λ cs x f. halts tt

pub get_free-Halts : (k : Kernel) (w : World) → Halts Any (get_free k true w)
unfolding get_free
get_free-Halts k w = if-Halts _ (take_free k) (pure none) w (take_free-Halts k w) (halts tt)

expire-Halts : (k : Kernel) (now : ℤ) (i : ℕ) (w : World) → Halts Any (expire k now i w)
unfolding expire
expire-Halts k now i w =
    and_then-Halts (load_conn-Halts i w)
      λ c v h. when-Halts (is_expired now v.mgr.pool c) _ v (release_conn-Halts k (some i) _)

cleanup_loop-Halts :
    (k : Kernel) (now : ℤ) (n i : ℕ) (w : World) → Halts Any (cleanup_loop k now n i w)
unfolding cleanup_loop
cleanup_loop-Halts k now zero i w = halts tt
cleanup_loop-Halts k now (suc n) i w =
    and_then-Halts (expire-Halts k now i w) λ _ v h. cleanup_loop-Halts k now n (suc i) v

pub conns_cleanup-Halts : (k : Kernel) (w : World) → Halts Any (conns_cleanup k w)
unfolding conns_cleanup
conns_cleanup-Halts k w = cleanup_loop-Halts k _ _ 0 (log time w)
