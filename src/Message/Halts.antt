-- ===== src/Message/Halts.antt =====
-- `get_http_msg` always ends, and reads nothing from the connection.
use sculpt.Base.{
  ℕ, ◌≤◌, ℤ, ◌==◌, ◌||◌, ltb, length, Bytes, Option, none, some, inl, inr, Bool-cases, refl, ◌≡◌,
  ◌⊎◌, true,
}
use sculpt.Machine.{Kernel, World, Buffer, null, wild, at}
use sculpt.Machine.Reads.{count_reads}
use sculpt.Machine.Halts.{Halts, Past, halts, faults, and_then-Halts, need-Halts}
use sculpt.Str.Copy.{str_copy_n-Halts}
use sculpt.Text.{c_string, strchr}
use sculpt.Message.{
  space, method_buf_size, url_buf_size, terminated, skip_spaces, fill_msg, find_uri, find_method,
  behind_space, get_http_msg,
}

split_cases :
    (o : Option (Bytes × Bytes)) → (o ≡ none) ⊎ ((a : Bytes) × (b : Bytes) × (o ≡ some (a, b)))
split_cases none = inl refl
split_cases (some p) = inr (p.0, p.1, refl)

module _ (k : Kernel) (fd : ℤ) (m : ℕ) where
  fill_msg-Halts :
      (method uri : Bytes) (w : World)
      → m ≤ count_reads fd w.trace
      → Halts (Past fd m) (fill_msg k method uri w)
  unfolding fill_msg
  fill_msg-Halts method uri w h =
      and_then-Halts (need-Halts {P = Past fd m} (terminated url_buf_size uri) w (λ b. h)) λ b v g.
        and_then-Halts (str_copy_n-Halts k _ _ v fd m g) λ u x f.
          and_then-Halts (need-Halts {P = Past fd m} (terminated method_buf_size method) x (λ b. f))
            λ b y e. and_then-Halts (str_copy_n-Halts k _ _ y fd m e) λ s z d. halts d

  find_uri-Halts :
      (method rest : Bytes) (w : World)
      → m ≤ count_reads fd w.trace
      → Halts (Past fd m) (find_uri k method rest w)
  unfolding find_uri
  find_uri-Halts method rest w h = elim (split_cases (strchr space (skip_spaces rest))) [
    | inl e ↦ rw (e, find_uri) (halts h)
    | inr (uri, behind, e) ↦ (elim (Bool-cases (length uri == 0 || ltb url_buf_size (length uri))) [
      | inl t ↦ rw (e, t, find_uri) (halts h)
      | inr t ↦ rw (e, t, find_uri) (fill_msg-Halts method uri w h)
    ])
  ]

  find_method-Halts :
      (header : Bytes) (w : World)
      → m ≤ count_reads fd w.trace
      → Halts (Past fd m) (find_method k header w)
  unfolding find_method
  find_method-Halts header w h = elim (split_cases (strchr space header)) [
    | inl e ↦ rw (e, find_method) (halts h)
    | inr (method, from_space, e) ↦
        (elim (Bool-cases (length method == 0 || ltb method_buf_size (length method))) [
          | inl t ↦ rw (e, t, find_method) (halts h)
          | inr t ↦
              rw (e, t, find_method)
                (and_then-Halts
                  (need-Halts {P = Past fd m} (terminated method_buf_size method) w (λ b. h))
                  λ b v g. find_uri-Halts method (behind_space from_space) v g)
        ])
  ]

  pub get_http_msg-Halts :
      (header : Buffer) (w : World)
      → m ≤ count_reads fd w.trace
      → Halts (Past fd m) (get_http_msg k true header w)
  unfolding get_http_msg
  get_http_msg-Halts null w h = halts h
  get_http_msg-Halts wild w h = faults
  get_http_msg-Halts (at b s) w h =
      and_then-Halts (need-Halts {P = Past fd m} (c_string s) w (λ x. h))
        λ x v g. find_method-Halts x v g
