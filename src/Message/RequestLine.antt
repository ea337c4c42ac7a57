-- ===== src/Message/RequestLine.antt =====
-- A well-formed request line is read back.
use sculpt.Base.{
  ℕ, zero, suc, ◌≡◌, ◌<◌, refl, true, false, Option, none, some, [], ◌∷◌, ◌++◌, Bytes, length,
  arith, All-append, replicate, ltb, ◌==◌, ◌||◌, ==_ne, ◌+◌, ℤ,
}
use sculpt.Machine.{at, HttpMsg, World, Kernel}
use sculpt.Machine.Since.{Since, now, later}
use sculpt.Machine.Returns.{Returns, returns}
use sculpt.Str.{Holds, readable}
use sculpt.Str.Copy.{after_copy-Holding, after_copy, copy_size, str_copy_n-copied}
use sculpt.Text.{IsText, Lacks, c_string-append, strchr-append, c_string}
use sculpt.Code.{ok_code}
use sculpt.Headers.Append.{Generous}
use sculpt.Headers.Free.{block_of}
use sculpt.Machine.Reads.{count_reads}
use sculpt.Machine.Holding.{Fresh, Holding, Holding-start}
use sculpt.Message.{
  Parsed, space, method_buf_size, url_buf_size, terminated, skip_spaces, fill_msg, find_uri,
  find_method, get_http_msg,
}

-- A part of the line: no NUL and no space, not empty, and with its NUL no larger than its array.
pub record IsWord (size : ℕ) (a : Bytes) : Type 0 where
  pub text : IsText a
  pub solid : Lacks space a
  pub nonempty : 0 < length a
  pub fits : length a < size

skip_spaces-word :
    (n : ℕ) (a r : Bytes)
    → Lacks space a
    → 0 < length a
    → skip_spaces (replicate n space ++ (a ++ r)) ≡ a ++ r
unfolding skip_spaces
skip_spaces-word n [] r solid h = absurd (omega arith)
skip_spaces-word zero (c ∷ a) r solid h = rw (==_ne c space solid.0) refl
skip_spaces-word (suc n) (c ∷ a) r solid h = skip_spaces-word n (c ∷ a) r solid h

terminated-fits : (size : ℕ) (a : Bytes) → length a < size → terminated size a ≡ some (a ++ 0 ∷ [])
unfolding terminated
terminated-fits size a h = ground arith

size_test : (size : ℕ) (a : Bytes) → IsWord size a → (length a == 0 || ltb size (length a)) ≡ false
size_test size a word = let n = word.nonempty in let f = word.fits in ground arith

spaces-IsText : (n : ℕ) → IsText (replicate n space)
spaces-IsText zero = tt
spaces-IsText (suc n) = (ground arith, spaces-IsText n)

-- The request line `METHOD URI rest` with `n` more spaces before the URI.
abbrev pub request_line : Bytes → ℕ → Bytes → Bytes → Bytes
request_line method n uri rest = method ++ space ∷ (replicate n space ++ (uri ++ space ∷ rest))

-- The message is the URI and the method, in two blocks that were taken since `w`; nothing was read.
pub record ReadBack (method uri : Bytes) (w : World) (r : Parsed) (v : World) : Type 0 where
  pub code : r.0 ≡ ok_code
  pub msg : HttpMsg
  pub result : r.1 ≡ some msg
  pub uri_holds : Holds msg.uri uri
  pub method_holds : Holds msg.method method
  pub uri_text : c_string (readable msg.uri.buf) ≡ some uri
  pub method_text : c_string (readable msg.method.buf) ≡ some method
  pub uri_block : ℕ
  pub method_block : ℕ
  pub owns_uri : block_of msg.uri.buf ≡ some uri_block
  pub owns_method : block_of msg.method.buf ≡ some method_block
  pub taken : Fresh w → Holding w (method_block ∷ (uri_block ∷ [])) v
  pub quiet : (fd : ℤ) → count_reads fd v.trace ≡ count_reads fd w.trace
  pub since : Since none w.trace v.trace

two_copies :
    (w : World)
    → Fresh w
    → (n m : ℕ)
    → Holding w ((w.next_block + 1) ∷ (w.next_block ∷ [])) (after_copy (after_copy w n) m)
two_copies w f n m =
    after_copy-Holding w (after_copy w n) (w.next_block ∷ []) m
      (after_copy-Holding w w [] n (Holding-start w f))

module _ (k : Kernel) (generous : Generous k) (method uri rest : Bytes) (n : ℕ) where
  fill_msg-ReadBack :
      (w : World)
      → IsWord method_buf_size method
      → IsWord url_buf_size uri
      → Returns (ReadBack method uri w) (fill_msg k method uri w)
  unfolding fill_msg
  fill_msg-ReadBack w m u =
      let w' = after_copy w (copy_size (length uri)) in
      rw
        (
          terminated-fits url_buf_size uri u.fits,
          str_copy_n-copied k w none uri (0 ∷ []) (generous _ _),
          terminated-fits method_buf_size method m.fits,
          str_copy_n-copied k w' none method (0 ∷ []) (generous _ _),
        )
        (returns (record {
          code = refl;
          msg = _;
          result = refl;
          uri_holds = record { block = some w.next_block; rest = 0 ∷ []; buf = refl; len = refl };
          method_holds = record {
            block = some w'.next_block;
            rest = 0 ∷ [];
            buf = refl;
            len = refl;
          };
          uri_text = c_string-append uri [] u.text;
          method_text = c_string-append method [] m.text;
          uri_block = w.next_block;
          method_block = w'.next_block;
          owns_uri = refl;
          owns_method = refl;
          taken = λ f. two_copies w f (copy_size (length uri)) (copy_size (length method));
          quiet = λ fd. refl;
          since = later tt (later tt now);
        }))

  find_uri-ReadBack :
      (w : World)
      → IsWord method_buf_size method
      → IsWord url_buf_size uri
      → Returns
          (ReadBack method uri w)
          (find_uri k method (replicate n space ++ (uri ++ space ∷ rest)) w)
  unfolding find_uri
  find_uri-ReadBack w m u =
      rw
        (
          skip_spaces-word n uri (space ∷ rest) u.solid u.nonempty,
          strchr-append space uri rest u.solid,
          size_test url_buf_size uri u,
          find_uri,
        )
        (fill_msg-ReadBack w m u)

  request_line-IsText :
      IsWord method_buf_size method
      → IsWord url_buf_size uri
      → IsText rest
      → IsText (request_line method n uri rest)
  request_line-IsText m u t = All-append _ method _ m.text (
    ground arith,
    All-append _ (replicate n space) _ (spaces-IsText n)
        (All-append _ uri _ u.text (ground arith, t)),
  )

  -- With memory granted, `get_http_msg` of a request line whose method and URI have no space, are not empty, and leave
  -- room for a NUL in arrays of 16 and 128 bytes returns SC_OK with NUL-terminated
  -- copies of exactly that URI and method, each in a block of its own, however many spaces stand between them and
  -- whatever text follows, and reads nothing. If every block in use lies below the next one, these two blocks are new, no
  -- other is taken, and the manager is not changed.
  pub get_http_msg-request_line :
      (w : World) (b : Option ℕ) (behind : Bytes)
      → IsWord method_buf_size method
      → IsWord url_buf_size uri
      → IsText rest
      → Returns
          (ReadBack method uri w)
          (get_http_msg k true (at b (request_line method n uri rest ++ 0 ∷ behind)) w)
  unfolding get_http_msg find_method
  get_http_msg-request_line w b behind m u t =
      rw
        (
          c_string-append (request_line method n uri rest) behind (request_line-IsText m u t),
          strchr-append space method (replicate n space ++ (uri ++ space ∷ rest)) m.solid,
          size_test method_buf_size method m,
          terminated-fits method_buf_size method m.fits,
          find_method,
        )
        (find_uri-ReadBack w m u)
