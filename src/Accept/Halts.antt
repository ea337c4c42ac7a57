-- ===== src/Accept/Halts.antt =====
-- `create_new_connection` and `cleanup_after_error` always end.
use sculpt.Base.{ℕ, ℤ, true, ltb_ℤ, ◌∷◌, minus_one, ◌==ℤ◌, Bool-cases, inl, inr, Option, none, some}
use sculpt.Machine.{Kernel, World, and_then, accept, fcntl_get, fcntl_set, epoll_ctl, add, ptr}
use sculpt.Machine.Halts.{Any, if-Halts, need-Halts, Halts, halts, and_then-Halts}
use sculpt.Pool.Halts.{load_conn-Halts, release_conn-Halts, get_free-Halts}
use sculpt.Pool.{get_free}
use sculpt.Accept.{
  return_500, cleanup_after_error, accept_conn, refuse, store_fd, drop_conn, accept_failed,
  register, accept_into, accept_slot, create_new_connection,
}

return_500-Halts : (k : Kernel) (i : ℕ) (w : World) → Halts Any (return_500 k i w)
unfolding return_500
return_500-Halts k i w =
    and_then-Halts (load_conn-Halts i w)
      λ c v h. and_then-Halts (release_conn-Halts k (some i) _) λ _ u g. halts tt

pub cleanup_after_error-Halts :
    (k : Kernel) (p : Option ℕ) (w : World) → Halts Any (cleanup_after_error k p w)
unfolding cleanup_after_error
cleanup_after_error-Halts k none w = halts tt
cleanup_after_error-Halts k (some i) w = and_then-Halts (return_500-Halts k i w) λ _ v h.
    and_then-Halts (release_conn-Halts k (some i) v)
      λ _ u g. and_then-Halts (load_conn-Halts i u) λ c x f. halts tt

drop_conn-Halts : (k : Kernel) (i : ℕ) (w : World) → Halts Any (drop_conn k i w)
unfolding drop_conn
drop_conn-Halts k i w =
    and_then-Halts (release_conn-Halts k (some i) w)
      λ _ v h. and_then-Halts (load_conn-Halts i v) λ c u g. halts tt

accept_failed-Halts : (k : Kernel) (i : ℕ) (w : World) → Halts Any (accept_failed k i w)
unfolding accept_failed
accept_failed-Halts k i w = and_then-Halts (release_conn-Halts k (some i) w) λ _ v h. halts tt

register-Halts : (k : Kernel) (i : ℕ) (fd : ℤ) (w : World) → Halts Any (register k i fd w)
unfolding register
register-Halts k i fd w =
    let t = fcntl_set fd ∷ fcntl_get fd ∷ w.trace in
    let t' = epoll_ctl (add (ptr (some i))) w.mgr.epoll_fd fd ∷ t in
    elim (Bool-cases (k.result t ==ℤ minus_one)) [
      | inl e ↦ rw e (drop_conn-Halts k i _)
      | inr e ↦ rw e (elim (Bool-cases (k.result t' ==ℤ minus_one)) [
        | inl f ↦ rw f (drop_conn-Halts k i _)
        | inr f ↦ rw f (halts tt)
      ])
    ]

store_fd-Halts : (i : ℕ) (fd : ℤ) (w : World) → Halts Any (store_fd i fd w)
unfolding store_fd
store_fd-Halts i fd w =
    and_then-Halts (load_conn-Halts i w) λ c v h.
      and_then-Halts (need-Halts {P = Any} v.mgr.pool.conns v (λ cs. tt)) λ cs u g. halts tt

accept_slot-Halts : (k : Kernel) (slot : Option ℕ) (w : World) → Halts Any (accept_slot k slot w)
unfolding accept_slot accept_into accept_conn
accept_slot-Halts k none w = halts tt
accept_slot-Halts k (some i) w = and_then-Halts (store_fd-Halts i _ _) λ _ v h.
    if-Halts _ (accept_failed k i) (register k i _) v (accept_failed-Halts k i v)
      (register-Halts k i _ v)

refuse-Halts : (k : Kernel) (w : World) → Halts Any (refuse k w)
unfolding refuse accept_conn
refuse-Halts k w = elim (Bool-cases (k.result (accept w.mgr.fd ∷ w.trace) ==ℤ minus_one)) [
  | inl e ↦ rw e (halts tt)
  | inr e ↦ rw e (halts tt)
]

pub create_new_connection-Halts : (k : Kernel) (w : World) → Halts Any (create_new_connection k w)
unfolding create_new_connection
create_new_connection-Halts k w =
    if-Halts (ltb_ℤ w.mgr.pool.conn_count w.mgr.pool.max_conn_count)
      (λ v. and_then (get_free k true v) (accept_slot k)) (refuse k) w
      (and_then-Halts (get_free-Halts k w) λ slot v h. accept_slot-Halts k slot v)
      (refuse-Halts k w)
