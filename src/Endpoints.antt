-- ===== src/Endpoints.antt =====
-- The endpoints of src/sculpt_mgr.c, and the part of `sc_mgr_poll` that calls the handler of a
-- request. NULL is the empty list.
pub mod Lookup
pub mod Dispatch
pub mod Bind
pub mod Halts
use sculpt.Base.{
  ℕ, Bool, true, false, Option, none, some, List, [], ◌∷◌, ◌++◌, Bytes, codes, if◌then◌else◌, ℤ,
  pos, ◌==ℤ◌, map_option,
}
use sculpt.Machine.{
  Buffer, Str, HttpMsg, Header, Endpoint, Kernel, Cmd, pure, crash, need, emit, get_mgr, put_mgr,
  ◌>>=◌, ◌>>◌, send, handler, print,
}
use sculpt.Machine.Heap.{alloc}
use sculpt.Str.{readable, strlen, str_ref_n, str_free, strcmp, strprefix}
use sculpt.Text.{crlf}
use sculpt.Code.{Code, ok_code, malloc_err}

-- The size of `struct _endpoint_list`.
abbrev endpoint_size : ℕ
endpoint_size = 40

abbrev pub ll_debug : ℤ
ll_debug = pos 3

new_endpoint : List Endpoint → Buffer → Bool → ℕ → Option ℕ → Cmd (List Endpoint)
new_endpoint list endpoint soft func none = pure []
new_endpoint list endpoint soft func (some b) = do
  n ← need (strlen (readable endpoint))
  pure (record { block = b; val = str_ref_n endpoint n; func = func; soft = soft } ∷ list)

-- `_endpoint_add`
endpoint_add : Kernel → List Endpoint → Buffer → Bool → ℕ → Cmd (List Endpoint)
unfolding new_endpoint
endpoint_add k list endpoint soft func = do
  r ← alloc k endpoint_size
  new_endpoint list endpoint soft func r

abbrev code_of : List Endpoint → Code
code_of [] = malloc_err
code_of (e ∷ es) = ok_code

-- `sc_mgr_bind_hard`
pub bind_hard : Kernel → Buffer → ℕ → Cmd Code
unfolding endpoint_add
bind_hard k endpoint func = do
  m ← get_mgr
  es ← endpoint_add k m.endpoints endpoint false func
  put_mgr (record m { endpoints = es })
  pure (code_of es)

-- The message of the debug level reads the first endpoint before the test for NULL.
log_endpoint : ℤ → List Endpoint → Cmd (Unit {0})
log_endpoint ll [] = if ll ==ℤ ll_debug then crash else pure tt
log_endpoint ll (e ∷ es) = if ll ==ℤ ll_debug then emit (print (readable e.val.buf)) else pure tt

-- `sc_mgr_bind_soft`
pub bind_soft : Kernel → Buffer → ℕ → Cmd Code
unfolding endpoint_add log_endpoint
bind_soft k endpoint func = do
  m ← get_mgr
  es ← endpoint_add k m.endpoints endpoint true func
  put_mgr (record m { endpoints = es })
  log_endpoint m.ll es
  pure (code_of es)

-- Does the endpoint take the request? `none` is a read out of reach.
pub takes : Endpoint → Str → Option Bool
takes e uri =
    if e.soft then strprefix uri e.val else map_option (λ r. r ==ℤ pos 0) (strcmp e.val uri)

-- The `while` loop: the first endpoint that takes the request.
pub find_endpoint : List Endpoint → Str → Option (Option Endpoint)
unfolding takes
find_endpoint [] uri = some none
find_endpoint (e ∷ es) uri =
    let rest = find_endpoint es uri in
    elim (takes e uri) [ none ↦ none | some b ↦ if b then some (some e) else rest ]

abbrev pub response_404 : Bytes
response_404 =
    codes "HTTP/1.1 404 NOT FOUND"
    ++ crlf
    ++ codes "Content-Type: text/html; charset=UTF-8"
    ++ crlf
    ++ codes "Content-Length: 9"
    ++ crlf
    ++ codes "Connection: keep-alive"
    ++ crlf
    ++ crlf
    ++ codes "NOT FOUND"

-- The handler is called and the message is freed; or the answer is 404.
respond : Kernel → ℤ → HttpMsg → List Header → Option Endpoint → Cmd (Unit {0})
respond k fd msg headers none = emit (send fd response_404)
respond k fd msg headers (some e) = do
  emit (handler e.func fd msg headers)
  k.run_handler e.func fd msg headers
  str_free msg.uri
  str_free msg.method

-- From the `while` loop of `sc_mgr_poll` up to its label `end`.
pub dispatch : Kernel → ℤ → HttpMsg → List Header → Cmd (Unit {0})
unfolding respond
dispatch k fd msg headers = do
  m ← get_mgr
  found ← need (find_endpoint m.endpoints msg.uri)
  respond k fd msg headers found
