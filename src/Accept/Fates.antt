-- ===== src/Accept/Fates.antt =====
-- What may become of a connection that is taken in.
use sculpt.Base.{[], ℕ, ◌≡◌, ◌≢◌, true, false, some, List, ◌∷◌, ℤ, set, ◌⊎◌, minus_one}
use sculpt.Machine.{Conn, World, Kernel, Trace, close, time, epoll_ctl, add, ptr, fcntl_set}
use sculpt.Code.{Code, ok_code}
use sculpt.Pool.{is_active}
use sculpt.Pool.Valid.{Valid}
use sculpt.Machine.Occurs.{Occurs, Ends}

-- The descriptor is none, or it was closed.
abbrev pub Disposed : ℤ → Trace → Type 0
Disposed fd t = (fd ≡ minus_one) ⊎ Occurs (close fd) t

-- The slot `i` holds the connection `fd`, and epoll has taken it.
pub record Admitted (k : Kernel) (epoll_fd : ℤ) (cs : List Conn) (free : List ℕ) (i : ℕ) (fd : ℤ)
    (r : Code) (v : World) : Type 0 where
  pub code : r ≡ ok_code
  pub slot : Conn
  pub valid : Valid v.mgr.pool (set cs i slot) free
  pub is_on : is_active slot.state ≡ true
  pub slot_fd : slot.fd ≡ fd
  pub opened : fd ≢ minus_one
  pub registered : Ends k [] (epoll_ctl (add (ptr (some i))) epoll_fd fd) false v.trace

-- The last call but those in `after` was a failing `fcntl` or `epoll_ctl` for the new connection.
abbrev pub Unfit : Kernel → ℤ → ℕ → ℤ → (after : Trace) → Trace → Type 0
Unfit k efd i fd after t =
    Ends k after (fcntl_set fd) true t ⊎ Ends k after (epoll_ctl (add (ptr (some i))) efd fd) true t

-- The slot `i` is back at the head of the free list, and `fd` is not left open.
pub record Rejected (k : Kernel) (efd : ℤ) (cs : List Conn) (free : List ℕ) (i : ℕ) (fd : ℤ)
    (r : Code) (v : World) : Type 0 where
  pub code : r ≢ ok_code
  pub slot : Conn
  pub valid : Valid v.mgr.pool (set cs i slot) (i ∷ free)
  pub is_off : is_active slot.state ≡ false
  pub disposed : Disposed fd v.trace
  pub cause : (fd ≡ minus_one) ⊎ Unfit k efd i fd (close fd ∷ (time ∷ [])) v.trace
