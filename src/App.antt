-- ===== src/App.antt =====
-- The sample program of src/app.c: its handler, and `main`. What they print is left out.
pub mod Page
pub mod Handler
pub mod Rounds
pub mod Equip
pub mod Willing
pub mod Life
use sculpt.Base.{
  ◌==◌, ℕ, zero, suc, ◌+◌, ◌%◌, ◌^◌, Bool, true, false, not, Option, none, some, List, [], ◌∷◌,
  ◌++◌, Bytes, codes, length, leb, if◌then◌else◌, ℤ, pos, ◌==ℤ◌,
}
use sculpt.Manager.{addr_create, mgr_create, epoll_init, mgr_listen, mgr_finish}
use sculpt.Pool.{pool_init}
use sculpt.Endpoints.{bind_hard}
use sculpt.Poll.{poll}
use sculpt.Machine.{Buffer, at, Header, Kernel, Cmd, pure, need, ◌>>=◌, ◌>>◌}
use sculpt.Str.{readable}
use sculpt.Code.{Code, ok_code, is_ok}
use sculpt.Response.{take_string, append_to, easy_send}

-- `BODY_BUF`
abbrev pub body_buf : ℕ
body_buf = 4096

-- A literal, with its NUL.
abbrev pub literal : Bytes → Bytes
literal s = s ++ 0 ∷ []

abbrev pub greeting : Bytes
greeting = codes "<html><h1>Hello, world! Your request:</h1>"

-- `strncat` onto the body.
add_to_body : Option Bytes → Bytes → ℕ → Option Bytes
add_to_body none s n = none
add_to_body (some body) s n = append_to body_buf body (take_string n s)

-- The lines of the loop that write a header.
add_header : Header → Option Bytes → Option Bytes
unfolding add_to_body
add_header h body =
    add_to_body
      (add_to_body (add_to_body body (literal (codes "<p>")) 4) (readable h.header.buf)
        h.header.len)
      (literal (codes "</p>")) 5

-- The loop; `body_size` is a `size_t`.
add_headers : List Header → (body_size : ℕ) → Option Bytes → Option Bytes
unfolding add_header
add_headers [] body_size body = body
add_headers (h ∷ hs) body_size body =
    let size = (body_size + h.header.len + 7) % 2 ^ 64 in
    let rest = add_headers hs size (add_header h body) in
    if leb body_buf ((size + 8) % 2 ^ 64) then body else rest

-- The body that `root_handler` sends.
pub root_body : List Header → Option Bytes
unfolding add_headers
root_body headers =
    add_to_body (add_headers headers (length greeting) (some greeting)) (literal (codes "</html>"))
      8

-- `root_handler`
pub root_handler : Kernel → ℤ → List Header → Cmd (Unit {0})
unfolding root_body
root_handler k fd headers = do
  body ← need (root_body headers)
  _ ←
      easy_send k fd (pos 200) (at none (literal (codes "OK")))
        (at none (literal (codes "Content-Type: text/html"))) (at none (literal body)) []
  pure tt

-- The exit status, 0 or `EXIT_FAILURE`.
abbrev pub exit_failure : ℤ
exit_failure = pos 1

-- The loop of `main`, where the signal comes after `rounds` rounds.
pub poll_rounds : Kernel → (fuel rounds : ℕ) → Cmd (Unit {0})
poll_rounds k fuel zero = pure tt
poll_rounds k fuel (suc n) = do _ ← poll k fuel true (pos 1000); poll_rounds k fuel n

-- `sc_mgr_finish` and `exit` after an error.
finish_failed : Option ℕ → Cmd ℤ
finish_failed mgr = do mgr_finish mgr; pure exit_failure

-- What `main` does once it listens; `root` is the address of `root_handler`.
pub run : Kernel → (fuel rounds root : ℕ) → Option ℕ → Cmd ℤ
unfolding poll_rounds
run k fuel rounds root mgr = do
  _ ← bind_hard k (at none (literal (codes "/root"))) root
  poll_rounds k fuel rounds
  mgr_finish mgr
  pure (pos 0)

-- From `sc_mgr_conn_pool_init` on.
pub open_pool : Kernel → (fuel rounds root : ℕ) → Option ℕ → Cmd ℤ
unfolding run finish_failed
open_pool k fuel rounds root mgr = do
  rc ← pool_init k true (pos 20)
  if not (is_ok rc) then finish_failed mgr else do
    rc ← mgr_listen k
    if not (is_ok rc) then finish_failed mgr else run k fuel rounds root mgr

-- From `sc_mgr_epoll_init` on.
pub set_up : Kernel → (fuel rounds root : ℕ) → Option ℕ → Cmd ℤ
unfolding open_pool
set_up k fuel rounds root mgr = do
  rc ← epoll_init k true
  if not (is_ok rc) then finish_failed mgr else open_pool k fuel rounds root mgr

-- What follows `sc_mgr_create`.
with_mgr : Kernel → (fuel rounds root : ℕ) → Option ℕ → Cmd ℤ
unfolding set_up
with_mgr k fuel rounds root none = pure exit_failure
with_mgr k fuel rounds root (some b) = set_up k fuel rounds root (some b)

-- The program: the handler that `main` binds is `root_handler`, at the address `root`.
abbrev pub application : Kernel → (root : ℕ) → Kernel
application k root = record k {
  run_handler = λ f fd msg headers.
      if f == root then root_handler k fd headers else k.run_handler f fd msg headers;
}

-- `main`
pub main : Kernel → (fuel rounds root : ℕ) → Cmd ℤ
unfolding with_mgr
main k fuel rounds root =
    let a = application k root in
    do (_, mgr) ← mgr_create a (addr_create (pos 2) (pos 8000)); with_mgr a fuel rounds root mgr
