-- ===== src/Pool/Stack.antt =====
-- The pool as an abstract data type: a stack of the slots that are free.
use sculpt.Base.{
  ℕ, ◌≡◌, ◌<◌, refl, true, false, Option, none, some, List, [], ◌∷◌, ap, ◌∙◌, has, length,
  get_elem?-lt, length-set, arith, Bool-cases, inl, inr, clash,
}
use sculpt.Machine.{Conn, Kernel, World, Cmd, pure, ◌>>=◌, ◌>>◌}
use sculpt.Machine.Returns.{Returns, returns, Returns-mono, and_then-Returns}
use sculpt.Pool.{is_active, get_free, release_conn}
use sculpt.Pool.Valid.{Valid}
use sculpt.Pool.Take.{get_free-Given}
use sculpt.Pool.Release.{release_conn-Valid}

-- What a client asks of the pool: a connection, or to take one back.
pub data Op : Type 0 where
  take : Op
  give : ℕ → Op

-- The stack: what it answers, and the slots that are free afterwards.
abbrev pub push_or_pop : Op → List ℕ → Option ℕ × List ℕ
push_or_pop take [] = (none, [])
push_or_pop take (i ∷ free) = (some i, free)
push_or_pop (give i) free = (none, i ∷ free)

pub answers : List Op → List ℕ → List (Option ℕ)
answers [] free = []
answers (op ∷ ops) free = (push_or_pop op free).0 ∷ answers ops (push_or_pop op free).1

pub left : List Op → List ℕ → List ℕ
left [] free = free
left (op ∷ ops) free = left ops (push_or_pop op free).1

-- A client may give back a slot of the pool that is not free.
abbrev pub May : (size : ℕ) → Op → List ℕ → Type 0
May size take free = Unit
May size (give i) free = (i < size) × (has i free ≡ false)

abbrev pub MayAll : (size : ℕ) → List Op → List ℕ → Type 0
MayAll size [] free = Unit
MayAll size (op ∷ ops) free = May size op free × MayAll size ops (push_or_pop op free).1

-- The same with the functions of the program.
unfoldable pub perform : Kernel → Op → Cmd (Option ℕ)
perform k take = get_free k true
perform k (give i) = do release_conn k (some i); pure none

unfoldable pub perform_all : Kernel → List Op → Cmd (List (Option ℕ))
unfolding perform
perform_all k [] = pure []
perform_all k (op ∷ ops) = do r ← perform k op; rs ← perform_all k ops; pure (r ∷ rs)

-- The pool of a world stands for a stack: it has so many slots, and exactly these are not active, in this order.
abbrev pub Stands : (size : ℕ) → World → List ℕ → Type 0
Stands size w free = (cs : List Conn) × (length cs ≡ size) × Valid w.mgr.pool cs free

module _ (k : Kernel) (size : ℕ) where
  perform-Stands :
      (op : Op) (w : World) (free : List ℕ)
      → Stands size w free
      → May size op free
      → Returns
          (λ r v. (r ≡ (push_or_pop op free).0) × Stands size v (push_or_pop op free).1)
          (perform k op w)
  unfolding perform
  perform-Stands take w [] (cs, len, valid) may =
      Returns-mono (get_free-Given k w cs [] valid)
        λ r v (nothing, same). (nothing, rw same (cs, len, valid))
  perform-Stands take w (i ∷ free) (cs, len, valid) may =
      Returns-mono (get_free-Given k w cs (i ∷ free) valid)
        λ r v got. (got.slot, (_, length-set cs i _ ∙ len, got.valid))
  perform-Stands (give i) w free (cs, len, valid) (below, out) =
      let (c, at_i) = get_elem?-lt cs i (omega (arith, below, len)) in
      elim (Bool-cases (is_active c.state)) [
        | inr off ↦ clash (valid.complete i c at_i off) out
        | inl on ↦
            and_then-Returns (release_conn-Valid k w cs free i c valid at_i on)
              λ _ v (valid', _, _, _). returns (refl, (_, length-set cs i _ ∙ len, valid'))
      ]

  -- The pool refines a stack of free slots: where it stands for a stack, any sequence of calls of
  -- `sc_mgr_conn_get_free` and `sc_mgr_conn_release` that only gives back slots in use ends without a fault, gives the
  -- answers of the stack, NULL when it is empty among them, and leaves a pool that stands for the stack that is left.
  pub perform_all-Stands :
      (ops : List Op) (w : World) (free : List ℕ)
      → Stands size w free
      → MayAll size ops free
      → Returns
          (λ rs v. (rs ≡ answers ops free) × Stands size v (left ops free))
          (perform_all k ops w)
  unfolding perform_all answers left
  perform_all-Stands [] w free stands may = returns (refl, stands)
  perform_all-Stands (op ∷ ops) w free stands (may, rest) =
      and_then-Returns (perform-Stands op w free stands may) λ r v (same, stands').
        and_then-Returns (perform_all-Stands ops v (push_or_pop op free).1 stands' rest)
          λ rs u (same', stands'').
            returns
              (ap (λ x. x ∷ rs) same ∙ ap (λ xs. (push_or_pop op free).0 ∷ xs) same', stands'')
