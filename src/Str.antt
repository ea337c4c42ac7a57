-- ===== src/Str.antt =====
-- The strings of src/sculpt_util.c. `char` is signed, as on x86-64 Linux.
pub mod Order
pub mod Prefix
pub mod Copy
use sculpt.Base.{
  ℕ, zero, suc, ◌+◌, ◌-◌, ◌%◌, ◌^◌, Bool, true, false, ◌&&◌, Option, none, some, [], ◌∷◌, ◌++◌,
  Bytes, ltb, ◌==◌, if◌then◌else◌, ℤ, pos, negsuc, ltb_ℤ, minus_one, map_option, ◌≡◌, length,
}
use sculpt.Machine.{Buffer, null, wild, at, Str, Kernel, Cmd, pure, crash, need, ◌>>=◌, ◌>>◌}
use sculpt.Machine.Heap.{alloc, release}

-- The bytes that a pointer may read: none through NULL or a wild pointer.
abbrev pub readable : Buffer → Bytes
readable null = []
readable wild = []
readable (at b s) = s

-- `strlen`: `none` if no NUL is within reach.
pub strlen : Bytes → Option ℕ
strlen [] = none
strlen (c ∷ s) = if c == 0 then some 0 else map_option suc (strlen s)

-- The first `n` bytes, if all of them are within reach.
pub take_exact : ℕ → Bytes → Option Bytes
take_exact zero s = some []
take_exact (suc n) [] = none
take_exact (suc n) (c ∷ s) = map_option (◌∷◌ c) (take_exact n s)

-- `sc_str_ref`
pub str_ref : Buffer → Cmd Str
str_ref null = pure (record { buf = null; len = 0 })
str_ref buf = do n ← need (strlen (readable buf)); pure (record { buf = buf; len = n })

-- `sc_str_ref_n`
unfoldable pub str_ref_n : Buffer → ℕ → Str
str_ref_n buf n = record { buf = buf; len = n }

-- `sc_str_copy_n`: the result of `malloc` is not tested.
pub str_copy_n : Kernel → Buffer → ℕ → Cmd Str
str_copy_n k buf n = do
  r ← alloc k ((n + 1) % 2 ^ 64)
  b ← need r
  s ← need (take_exact n (readable buf))
  pure (record { buf = at (some b) (s ++ 0 ∷ []); len = n })

-- `sc_str_copy`
unfoldable pub str_copy : Kernel → Buffer → Cmd Str
str_copy k buf = do n ← need (strlen (readable buf)); str_copy_n k buf n

-- `sc_str_free`. Only what `malloc` gave may be freed.
unfoldable pub str_free : Str → Cmd (Unit {0})
str_free s = elim s.buf [
  | null ↦ pure tt
  | wild ↦ crash
  | at b bytes ↦ elim b [ none ↦ crash | some b ↦ release b ]
]

-- A byte read as a `char` and widened to an `int`.
abbrev pub to_char : ℕ → ℤ
to_char c = if ltb c 128 then pos c else negsuc (255 - c)

-- The loop of `sc_strcmp` and the two tests behind it, over what is left of either string; `none`
-- is a read out of reach.
compare_from : ℕ → ℕ → Bytes → Bytes → Option ℤ
compare_from zero zero s t = some (pos 0)
compare_from zero (suc m) s t = some minus_one
compare_from (suc n) zero s t = some (pos 1)
compare_from (suc n) (suc m) [] t = none
compare_from (suc n) (suc m) (c ∷ s) [] = none
compare_from (suc n) (suc m) (c ∷ s) (d ∷ t) =
    let rest = compare_from n m s t in
    if ltb_ℤ (to_char c) (to_char d)
    then some minus_one
    else if ltb_ℤ (to_char d) (to_char c)
    then some (pos 1)
    else rest

-- `sc_strcmp`
unfoldable pub strcmp : Str → Str → Option ℤ
unfolding compare_from
strcmp s t = compare_from s.len t.len (readable s.buf) (readable t.buf)

-- `memcmp(…) == 0` over bytes that have been read.
same_bytes : Bytes → Bytes → Bool
same_bytes [] [] = true
same_bytes [] (d ∷ t) = false
same_bytes (c ∷ s) [] = false
same_bytes (c ∷ s) (d ∷ t) = c == d && same_bytes s t

infixl 5 ◌>>=?◌
abbrev ◌>>=?◌ : {A B : Type 0} → Option A → (A → Option B) → Option B
none >>=? f = none
some a >>=? f = f a

-- `sc_strprefix`
pub strprefix : Str → Str → Option Bool
unfolding same_bytes
strprefix s p =
    if ltb s.len p.len
    then some false
    else take_exact p.len (readable s.buf) >>=? λ a.
        take_exact p.len (readable p.buf) >>=? λ b. some (same_bytes a b)

-- The string `s` holds the bytes `a`, whatever follows them in memory.
pub record Holds (s : Str) (a : Bytes) : Type 0 where
  pub block : Option ℕ
  pub rest : Bytes
  pub buf : s.buf ≡ at block (a ++ rest)
  pub len : s.len ≡ length a
