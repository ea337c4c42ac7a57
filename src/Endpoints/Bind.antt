-- ===== src/Endpoints/Bind.antt =====
-- `sc_mgr_bind_hard` and `sc_mgr_bind_soft`, followed by a request.
use sculpt.Base.{
  Bool-cases, inl, inr, All, ◌==ℤ◌, refl, ◌≡◌, some, none, true, false, ℕ, Bool, Option, List, ◌∷◌,
  ◌++◌, Bytes, length, [], ◌⊎◌, if◌then◌else◌, ◌==◌,
}
use sculpt.Machine.{Buffer, World, Kernel, malloc, fault, at, Str, Endpoint}
use sculpt.Machine.Heap.{alloc}
use sculpt.Machine.Returns.{Returns, returns}
use sculpt.Str.{Holds, str_ref_n}
use sculpt.Str.Order.{IsByte}
use sculpt.Str.Copy.{strlen-append}
use sculpt.Text.{IsText}
use sculpt.Code.{ok_code, malloc_err}
use sculpt.Endpoints.{endpoint_size, bind_hard, bind_soft, ll_debug, find_endpoint}
use sculpt.Endpoints.Lookup.{IsRoute, takes-Decides, Takes}

-- The endpoint for the C string `path`, in block `n`.
abbrev pub bound : ℕ → Option ℕ → Bytes → Bytes → Bool → ℕ → Endpoint
bound n b path r soft func = record {
  block = n;
  val = str_ref_n (at b (path ++ 0 ∷ r)) (length path);
  func = func;
  soft = soft;
}

pub bound-Holds :
    (n : ℕ) (b : Option ℕ) (path r : Bytes) (soft : Bool) (func : ℕ)
    → Holds (bound n b path r soft func).val path
unfolding str_ref_n
bound-Holds n b path r soft func = record { block = b; rest = 0 ∷ r; buf = refl; len = refl }

-- A URI that the new endpoint takes goes to it, and any other goes where it went before.
abbrev pub Routed : Endpoint → Bytes → Bytes → Str → List Endpoint → List Endpoint → Type 0
Routed e path u uri es ds =
    (Takes e.soft path u → find_endpoint ds uri ≡ some (some e))
    × (¬ Takes e.soft path u → find_endpoint ds uri ≡ find_endpoint es uri)

-- The endpoint was added in a new block; or there was no memory, and no endpoint is left.
abbrev pub Added : ℕ → World → World → Type 0
Added func w v =
    ((e : Endpoint) × (e.block ≡ w.next_block)
      × (e.func ≡ func)
      × IsRoute e
      × (v.mgr.endpoints ≡ e ∷ w.mgr.endpoints)
      × ((x : ℕ) → v.live x ≡ (if x == w.next_block then true else w.live x)))
    ⊎ ((v.mgr.endpoints ≡ []) × (v.live ≡ w.live))

-- `sc_mgr_bind_hard` of a C string changes nothing of the manager but its endpoints.
pub bind_hard-Added :
    (k : Kernel) (w : World) (b : Option ℕ) (path r : Bytes) (func : ℕ)
    → IsText path
    → All IsByte path
    → Returns
        (λ q v. (v.mgr ≡ record (w.mgr) { endpoints = v.mgr.endpoints }) × Added func w v)
        (bind_hard k (at b (path ++ 0 ∷ r)) func w)
unfolding bind_hard alloc
bind_hard-Added k w b path r func text bytes =
    elim (Bool-cases (k.grants (malloc endpoint_size ∷ w.trace))) [
      | inl got ↦
          rw (got, strlen-append path r text)
            (returns (
              refl,
              inl (
                bound w.next_block b path r false func,
                refl,
                refl,
                (record {
                  path = path;
                  holds = bound-Holds w.next_block b path r false func;
                  bytes = bytes;
                }),
                refl,
                λ x. refl,
              ),
            ))
      | inr refused ↦ rw refused (returns (refl, inr (refl, refl)))
    ]

module _ (k : Kernel) (w : World) (b : Option ℕ) (path r : Bytes) (func : ℕ) (uri : Str) (u : Bytes)
    (text : IsText path) (bytes : All IsByte path) (h : Holds uri u) (ub : All IsByte u) where
  find_endpoint-cons :
      (e : Endpoint) → Holds e.val path → Routed e path u uri w.mgr.endpoints (e ∷ w.mgr.endpoints)
  unfolding find_endpoint
  find_endpoint-cons e g =
      elim (takes-Decides uri u h ub e (record { path = path; holds = g; bytes = bytes })) [
        | inl (t, took) ↦ ((λ _. rw (t, find_endpoint) refl), λ n. absurd (n took))
        | inr (t, passed) ↦ ((λ x. absurd (passed x)), λ _. rw (t, find_endpoint) refl)
      ]

  -- When memory is granted `sc_mgr_bind_hard` returns SC_OK, and afterwards a request for exactly
  -- the path goes to the new handler while every other request goes where it went before.
  pub bind_hard-Routed :
      k.grants (malloc endpoint_size ∷ w.trace) ≡ true
      → Returns
          (λ q v.
            (q ≡ ok_code)
            × Routed
                (bound w.next_block b path r false func)
                path
                u
                uri
                w.mgr.endpoints
                v.mgr.endpoints)
          (bind_hard k (at b (path ++ 0 ∷ r)) func w)
  unfolding bind_hard alloc
  bind_hard-Routed got =
      rw (got, strlen-append path r text)
        (returns (
          refl,
          find_endpoint-cons (bound w.next_block b path r false func)
              (bound-Holds w.next_block b path r false func),
        ))

  -- When memory is granted `sc_mgr_bind_soft` returns SC_OK at every log level, and afterwards each
  -- request whose URI begins with the path goes to the new handler while every other goes where it
  -- went before.
  pub bind_soft-Routed :
      k.grants (malloc endpoint_size ∷ w.trace) ≡ true
      → Returns
          (λ q v.
            (q ≡ ok_code)
            × Routed
                (bound w.next_block b path r true func)
                path
                u
                uri
                w.mgr.endpoints
                v.mgr.endpoints)
          (bind_soft k (at b (path ++ 0 ∷ r)) func w)
  unfolding bind_soft alloc
  bind_soft-Routed got =
      let e = bound w.next_block b path r true func in
      let g = bound-Holds w.next_block b path r true func in
      rw (got, strlen-append path r text)
        (elim (Bool-cases (w.mgr.ll ==ℤ ll_debug)) [
          | inl d ↦ rw d (returns (refl, find_endpoint-cons e g))
          | inr d ↦ rw d (returns (refl, find_endpoint-cons e g))
        ])

module _ (k : Kernel) (w : World) (endpoint : Buffer) (func : ℕ) where
  -- Without memory `sc_mgr_bind_hard` returns SC_MALLOC_ERR and forgets every endpoint that was
  -- bound before, so that no URI finds a handler any more.
  pub bind_hard_forgets :
      k.grants (malloc endpoint_size ∷ w.trace) ≡ false
      → Returns
          (λ q v. (q ≡ malloc_err) × ((uri : Str) → find_endpoint v.mgr.endpoints uri ≡ some none))
          (bind_hard k endpoint func w)
  unfolding bind_hard alloc find_endpoint
  bind_hard_forgets refused = rw refused (returns (refl, λ uri. refl))

  -- Without memory, at the debug level, `sc_mgr_bind_soft` faults: its message reads the first
  -- endpoint of the list before the list is found to be NULL.
  pub bind_soft_fault :
      k.grants (malloc endpoint_size ∷ w.trace) ≡ false
      → w.mgr.ll ≡ ll_debug
      → bind_soft k endpoint func w ≡ fault
  unfolding bind_soft alloc
  bind_soft_fault refused debug = rw (refused, debug) refl
