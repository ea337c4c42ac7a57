-- ===== src/Str/Prefix.antt =====
-- `sc_strprefix`, and reading a known number of bytes.
use native.Mathlib.Decide.{dec_lt}
use sculpt.Base.{
  eq_of_some, ℕ, zero, suc, ◌≡◌, ◌<◌, ◌≤◌, refl, Bool, true, false, some, [], ◌∷◌, ◌++◌, Bytes,
  length, length-append, ltb, arith, ◌↔◌, ap, sym, ◌∙◌, clash, drop, take,
}
use sculpt.Machine.{Str}
use sculpt.Str.{take_exact, same_bytes, strprefix, Holds}

pub take_exact-append : (a r : Bytes) → take_exact (length a) (a ++ r) ≡ some a
unfolding take_exact
take_exact-append [] r = refl
take_exact-append (c ∷ a) r = rw (take_exact-append a r) refl

take-append-drop : (n : ℕ) (a : Bytes) → take n a ++ drop n a ≡ a
take-append-drop zero a = refl
take-append-drop (suc n) [] = refl
take-append-drop (suc n) (c ∷ a) = ap (◌∷◌ c) (take-append-drop n a)

length-take_le : (n : ℕ) (a : Bytes) → n ≤ length a → length (take n a) ≡ n
length-take_le zero a h = refl
length-take_le (suc n) [] h = absurd (omega arith)
length-take_le (suc n) (c ∷ a) h = ap suc (length-take_le n a (omega arith))

eq_of_same_bytes : (a b : Bytes) → same_bytes a b ≡ true → a ≡ b
unfolding same_bytes
eq_of_same_bytes [] [] h = refl
eq_of_same_bytes [] (d ∷ b) h = cc
eq_of_same_bytes (c ∷ a) [] h = cc
eq_of_same_bytes (c ∷ a) (d ∷ b) h = ground (arith, eq_of_same_bytes a b)

same_bytes_self : (a : Bytes) → same_bytes a a ≡ true
unfolding same_bytes
same_bytes_self [] = refl
same_bytes_self (c ∷ a) = ground (arith, same_bytes_self a)

take_exact-take : (n : ℕ) (a r : Bytes) → n ≤ length a → take_exact n (a ++ r) ≡ some (take n a)
unfolding take_exact
take_exact-take zero a r h = refl
take_exact-take (suc n) [] r h = absurd (omega arith)
take_exact-take (suc n) (c ∷ a) r h = rw (take_exact-take n a r (omega arith)) refl

take-append : (q rest : Bytes) → take (length q) (q ++ rest) ≡ q
take-append [] rest = refl
take-append (c ∷ q) rest = ap (◌∷◌ c) (take-append q rest)

module _ (s p : Str) (a q : Bytes) (h : Holds s a) (g : Holds p q) where
  strprefix_short : length a < length q → strprefix s p ≡ some false
  unfolding strprefix
  strprefix_short lt = rw (h.len, g.len) (ground arith)

  strprefix_long : length q ≤ length a → strprefix s p ≡ some (same_bytes (take (length q) a) q)
  unfolding strprefix
  strprefix_long le =
      let at_least : ltb (length a) (length q) ≡ false = ground arith in
      rw
        (
          h.len,
          g.len,
          at_least,
          h.buf,
          g.buf,
          take_exact-take (length q) a h.rest le,
          take_exact-append q g.rest,
        )
        refl

  -- `sc_strprefix` stays within both strings and decides whether the second is a prefix of the first.
  pub strprefix_iff :
      ((strprefix s p ≡ some true) ↔ ((rest : Bytes) × (a ≡ q ++ rest)))
      × ((b : Bool) × (strprefix s p ≡ some b))
  strprefix_iff = elim (dec_lt (length a) (length q)) [
    | yes lt ↦ (
      (
        λ e. clash (eq_of_some (sym (strprefix_short lt) ∙ e)) refl,
        λ (rest, e). absurd (omega (arith, ap length e, length-append q rest)),
      ),
      (false, strprefix_short lt),
    )
    | no ge ↦
        let le : length q ≤ length a = omega arith in
        (
          (
            λ e. (
              drop (length q) a,
              sym (take-append-drop (length q) a)
                  ∙ ap (λ x. x ++ drop (length q) a)
                      (eq_of_same_bytes _ q (eq_of_some (sym (strprefix_long le) ∙ e))),
            ),
            λ (rest, e).
                strprefix_long le ∙ ap some (rw (e, take-append q rest) (same_bytes_self q)),
          ),
          (same_bytes (take (length q) a) q, strprefix_long le),
        )
  ]
