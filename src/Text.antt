-- ===== src/Text.antt =====
-- The functions of <string.h> that search a C string.
use sculpt.Base.{
  List, length, ◌<◌, ◌^◌, All, ℕ, Bool, true, false, ◌&&◌, ◌||◌, Option, none, some, [], ◌∷◌, Bytes,
  ◌==◌, if◌then◌else◌, map_option, ◌≡◌, ◌≢◌, refl, ◌++◌, ==_ne, ==_refl,
}

-- CR LF.
abbrev pub crlf : Bytes
crlf = 13 ∷ 10 ∷ []

-- The bytes before the first NUL, if there is one within reach.
unfoldable pub c_string : Bytes → Option Bytes
c_string [] = none
c_string (c ∷ s) = if c == 0 then some [] else map_option (◌∷◌ c) (c_string s)

unfoldable pub starts : Bytes → Bytes → Bool
starts [] s = true
starts (n ∷ needle) [] = false
starts (n ∷ needle) (c ∷ s) = n == c && starts needle s

-- Does `strstr` find the needle (the first argument)?
unfoldable pub strstr : Bytes → Bytes → Bool
strstr needle [] = starts needle []
strstr needle (c ∷ s) = starts needle (c ∷ s) || strstr needle s

-- What stands before the first `c` and from it on, as `strchr` finds it.
unfoldable pub strchr : ℕ → Bytes → Option (Bytes × Bytes)
strchr c [] = none
strchr c (d ∷ s) =
    if d == c then some ([], d ∷ s) else map_option (λ p. (d ∷ p.0, p.1)) (strchr c s)

-- No byte is NUL.
abbrev pub IsText : Bytes → Type 0
IsText = All (λ c. c ≢ 0)

-- Each text is far from the end of the address space.
abbrev pub Short : List Bytes → Type 0
Short = All (λ t. length t < 2 ^ 63)

pub c_string-append : (a r : Bytes) → IsText a → c_string (a ++ 0 ∷ r) ≡ some a
unfolding c_string
c_string-append [] r t = refl
c_string-append (c ∷ a) r t = rw (==_ne c 0 t.0, c_string-append a r t.1) refl

abbrev pub Lacks : ℕ → Bytes → Type 0
Lacks c = All (λ d. d ≢ c)

pub strchr-append : (c : ℕ) (a r : Bytes) → Lacks c a → strchr c (a ++ c ∷ r) ≡ some (a, c ∷ r)
unfolding strchr
strchr-append c [] r l = rw (==_refl c) refl
strchr-append c (d ∷ a) r l = rw (==_ne d c l.0, strchr-append c a r l.1) refl

pub strchr-none : (c : ℕ) (a : Bytes) → Lacks c a → strchr c a ≡ none
unfolding strchr
strchr-none c [] l = refl
strchr-none c (d ∷ a) l = rw (==_ne d c l.0, strchr-none c a l.1) refl
