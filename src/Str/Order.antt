-- ===== src/Str/Order.antt =====
-- `sc_strcmp` is the lexicographic order on the bytes that two strings hold.
use sculpt.Base.{
  eq_of_some, ◌↔◌, ap, sym, ◌∙◌, map_option, ℕ, zero, suc, ◌≡◌, ◌<◌, refl, some, [], ◌∷◌, ◌++◌,
  Bytes, length, ℤ, pos, negsuc, ltb_ℤ, minus_one, if◌then◌else◌, arith, All,
}
use sculpt.Machine.{Str}
use sculpt.Str.{to_char, compare_from, strcmp, Holds}

-- The order: a string comes before its extensions, and the first difference decides.
pub lexicographic : Bytes → Bytes → ℤ
lexicographic [] [] = pos 0
lexicographic [] (d ∷ t) = minus_one
lexicographic (c ∷ s) [] = pos 1
lexicographic (c ∷ s) (d ∷ t) =
    if ltb_ℤ (to_char c) (to_char d)
    then minus_one
    else if ltb_ℤ (to_char d) (to_char c)
    then pos 1
    else lexicographic s t

compare_from-lexicographic :
    (a b r q : Bytes)
    → compare_from (length a) (length b) (a ++ r) (b ++ q) ≡ some (lexicographic a b)
unfolding compare_from lexicographic
compare_from-lexicographic [] [] r q = refl
compare_from-lexicographic [] (d ∷ b) r q = refl
compare_from-lexicographic (c ∷ a) [] r q = refl
compare_from-lexicographic (c ∷ a) (d ∷ b) r q = ground (arith, compare_from-lexicographic a b r q)

-- `sc_strcmp` stays within both strings and gives their lexicographic order.
pub strcmp-lexicographic :
    (s t : Str) (a b : Bytes) → Holds s a → Holds t b → strcmp s t ≡ some (lexicographic a b)
unfolding strcmp
strcmp-lexicographic s t a b h g =
    rw (h.buf, g.buf, h.len, g.len) (compare_from-lexicographic a b h.rest g.rest)

abbrev pub IsByte : ℕ → Type 0
IsByte c = c < 256

pub negate : ℤ → ℤ
negate (pos zero) = pos zero
negate (pos (suc n)) = negsuc n
negate (negsuc n) = pos (suc n)

lexicographic-swap : (a b : Bytes) → lexicographic b a ≡ negate (lexicographic a b)
unfolding lexicographic negate
lexicographic-swap [] [] = refl
lexicographic-swap [] (d ∷ b) = refl
lexicographic-swap (c ∷ a) [] = refl
lexicographic-swap (c ∷ a) (d ∷ b) = ground (arith, lexicographic-swap a b)

eq_of_lexicographic :
    (a b : Bytes) → All IsByte a → All IsByte b → lexicographic a b ≡ pos 0 → a ≡ b
unfolding lexicographic
eq_of_lexicographic [] [] x y h = refl
eq_of_lexicographic [] (d ∷ b) x y h = cc
eq_of_lexicographic (c ∷ a) [] x y h = ground arith
eq_of_lexicographic (c ∷ a) (d ∷ b) x y h = ground (arith, eq_of_lexicographic a b x.1 y.1)

lexicographic_self : (a : Bytes) → lexicographic a a ≡ pos 0
unfolding lexicographic
lexicographic_self [] = refl
lexicographic_self (c ∷ a) = ground (arith, lexicographic_self a)

lexicographic_trans :
    (a b c : Bytes)
    → lexicographic a b ≡ minus_one
    → lexicographic b c ≡ minus_one
    → lexicographic a c ≡ minus_one
unfolding lexicographic
lexicographic_trans [] b [] h g =
    elim b
        as (λ b.
          lexicographic [] b ≡ minus_one → lexicographic b [] ≡ minus_one → pos 0 ≡ minus_one) [
            | [] ↦ λ h g. h
            | d ∷ b ↦ λ h g. cc
          ]
      h g
lexicographic_trans [] b (e ∷ c) h g = refl
lexicographic_trans (x ∷ a) [] c h g = ground arith
lexicographic_trans (x ∷ a) (d ∷ b) [] h g = ground arith
lexicographic_trans (x ∷ a) (d ∷ b) (e ∷ c) h g = ground (arith, lexicographic_trans a b c)

module _ (s t : Str) (a b : Bytes) (h : Holds s a) (g : Holds t b) where
  -- `sc_strcmp` of two strings is 0 exactly when they hold the same bytes.
  pub strcmp-zero_iff : All IsByte a → All IsByte b → (strcmp s t ≡ some (pos 0)) ↔ (a ≡ b)
  strcmp-zero_iff x y = (
    λ e. eq_of_lexicographic a b x y (eq_of_some (sym (strcmp-lexicographic s t a b h g) ∙ e)),
    λ e. strcmp-lexicographic s t a b h g ∙ ap some (rw e (lexicographic_self b)),
  )

  -- Swapping the arguments of `sc_strcmp` changes the sign of the result.
  pub strcmp-swap : strcmp t s ≡ map_option negate (strcmp s t)
  strcmp-swap =
      strcmp-lexicographic t s b a g h
      ∙ ap some (lexicographic-swap a b)
      ∙ ap (map_option negate) (sym (strcmp-lexicographic s t a b h g))

-- `sc_strcmp` orders strings transitively.
pub strcmp_trans :
    (s t u : Str) (a b c : Bytes)
    → Holds s a
    → Holds t b
    → Holds u c
    → strcmp s t ≡ some minus_one
    → strcmp t u ≡ some minus_one
    → strcmp s u ≡ some minus_one
strcmp_trans s t u a b c hs ht hu e f =
    strcmp-lexicographic s u a c hs hu
    ∙ ap some (
        lexicographic_trans a b c (eq_of_some (sym (strcmp-lexicographic s t a b hs ht) ∙ e))
          (eq_of_some (sym (strcmp-lexicographic t u b c ht hu) ∙ f)))
