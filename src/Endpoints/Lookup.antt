-- ===== src/Endpoints/Lookup.antt =====
-- Which endpoint takes a request.
use sculpt.Base.{
  refl, [], ◌∷◌, ne_of_==ℤ, ◌≡◌, Bool, true, false, Option, none, some, List, ◌++◌, Bytes, ◌⊎◌, inl,
  inr, All, ap, sym, ◌∙◌, pos, ◌==ℤ◌, eq_of_==ℤ, Bool-cases, eq_of_some, map_option, clash,
}
use sculpt.Machine.{Str, Endpoint}
use sculpt.Str.{Holds, strcmp, strprefix}
use sculpt.Str.Order.{IsByte, lexicographic, strcmp-lexicographic, strcmp-zero_iff}
use sculpt.Str.Prefix.{strprefix_iff}
use sculpt.Endpoints.{find_endpoint, takes}

-- The rule of the documentation: a soft endpoint takes every URI that begins with its path, a hard
-- one takes its path alone.
abbrev pub Takes : Bool → Bytes → Bytes → Type 0
Takes true path uri = (rest : Bytes) × (uri ≡ path ++ rest)
Takes false path uri = path ≡ uri

-- An endpoint for a path of bytes.
pub record IsRoute (e : Endpoint) : Type 0 where
  pub path : Bytes
  pub holds : Holds e.val path
  pub bytes : All IsByte path

module _ (uri : Str) (u : Bytes) (h : Holds uri u) (b : All IsByte u) where
  -- The test is decided, in keeping with the rule.
  abbrev pub Decides : Endpoint → Bytes → Type 0
  Decides e path =
      ((takes e uri ≡ some true) × Takes e.soft path u)
      ⊎ ((takes e uri ≡ some false) × ¬ Takes e.soft path u)

  soft_test :
      (p : Str) (path : Bytes)
      → Holds p path
      → ((strprefix uri p ≡ some true) × Takes true path u)
        ⊎ ((strprefix uri p ≡ some false) × ¬ Takes true path u)
  soft_test p path g =
      let (iff, (v, e)) = strprefix_iff uri p u path h g in
      elim (Bool-cases v) [
        | inl t ↦ inl (e ∙ ap some t, iff.0 (e ∙ ap some t))
        | inr f ↦ inr (e ∙ ap some f, λ x. clash (eq_of_some (sym e ∙ iff.1 x)) f)
      ]

  hard_test :
      (p : Str) (path : Bytes)
      → Holds p path
      → All IsByte path
      → ((map_option (λ r. r ==ℤ pos 0) (strcmp p uri) ≡ some true) × Takes false path u)
        ⊎ ((map_option (λ r. r ==ℤ pos 0) (strcmp p uri) ≡ some false) × ¬ Takes false path u)
  hard_test p path g a =
      let run = strcmp-lexicographic p uri path u g h in
      let iff = strcmp-zero_iff p uri path u g h a b in
      elim (Bool-cases (lexicographic path u ==ℤ pos 0)) [
        | inl t ↦ inl (rw run (ap some t), iff.0 (run ∙ ap some (eq_of_==ℤ _ (pos 0) t)))
        | inr f ↦
            inr (rw run (ap some f), λ x. ne_of_==ℤ _ (pos 0) f (eq_of_some (sym run ∙ iff.1 x)))
      ]

  pub takes-Decides : (e : Endpoint) (r : IsRoute e) → Decides e r.path
  unfolding takes
  takes-Decides e r = elim (Bool-cases e.soft) [
    | inl s ↦ rw s (soft_test e.val r.path r.holds)
    | inr s ↦ rw s (hard_test e.val r.path r.holds r.bytes)
  ]

  -- All the endpoints have paths, given in the same order.
  abbrev pub Routes : List Endpoint → Type 0
  Routes = All IsRoute

  abbrev pub Passes : Endpoint → Type 0
  Passes e = (path : Bytes) × Holds e.val path × ¬ Takes e.soft path u

  -- The result of the loop: an endpoint that takes the URI, with none before it that does, or no
  -- endpoint when none takes it.
  abbrev pub First : List Endpoint → Option Endpoint → Type 0
  First es none = All Passes es
  First es (some e) =
      (before : List Endpoint) × (after : List Endpoint) × (es ≡ before ++ e ∷ after)
      × All Passes before
      × ((path : Bytes) × Holds e.val path × Takes e.soft path u)

  First-cons :
      (e : Endpoint) (es : List Endpoint) (r : Option Endpoint)
      → Passes e
      → First es r
      → First (e ∷ es) r
  First-cons e es none p f = (p, f)
  First-cons e es (some x) p (before, after, eq, passed, took) =
      (e ∷ before, after, ap (◌∷◌ e) eq, (p, passed), took)

  -- The search of `sc_mgr_poll` stays within the strings and always ends with an answer: the first
  -- endpoint of the list that takes the URI, by prefix if it is soft and by equality if it is hard,
  -- or none exactly when no endpoint takes it.
  pub find_endpoint-First :
      (es : List Endpoint)
      → Routes es
      → (r : Option Endpoint) × (find_endpoint es uri ≡ some r) × First es r
  unfolding find_endpoint
  find_endpoint-First [] rs = (none, refl, tt)
  find_endpoint-First (e ∷ es) (r, rs) =
      let (x, eq, f) = find_endpoint-First es rs in
      elim (takes-Decides e r) [
        | inl (t, took) ↦
            (some e, rw (t, find_endpoint) refl, ([], es, refl, tt, (r.path, r.holds, took)))
        | inr (t, passed) ↦
            (x, rw (t, find_endpoint) eq, First-cons e es x (r.path, r.holds, passed) f)
      ]
