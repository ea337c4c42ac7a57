-- ===== src/Code.antt =====
-- The status codes of src/sculpt.h and src/sculpt_conn.c.
use sculpt.Base.{ℕ, Bool, true, false, ℤ, pos, negsuc}

pub data Code : Type 0 where
  ok_code bind_err listen_err getnameinfo_err malloc_err setopt_err creation_err
        epoll_creation_err :
      Code
  epoll_ctl_err epoll_wait_err accept_err bad_arguments_err fcntl_err send_err conn_closed : Code
  read_err finished buffer_overflow_err malformed_header_err : Code
  continue_code header_parse_err header_parse_incomplete_err : Code

abbrev pub is_ok : Code → Bool
is_ok ok_code = true
is_ok _ = false

-- The `#define`s: `negsuc n` is -(n + 1).
pub to_int : Code → ℤ
to_int ok_code = pos 0
to_int bind_err = negsuc 0
to_int listen_err = negsuc 1
to_int getnameinfo_err = negsuc 2
to_int malloc_err = negsuc 3
to_int setopt_err = negsuc 4
to_int creation_err = negsuc 5
to_int epoll_creation_err = negsuc 6
to_int epoll_ctl_err = negsuc 7
to_int epoll_wait_err = negsuc 8
to_int accept_err = negsuc 9
to_int bad_arguments_err = negsuc 10
to_int fcntl_err = negsuc 11
to_int send_err = negsuc 12
to_int conn_closed = negsuc 13
to_int read_err = negsuc 14
to_int finished = negsuc 15
to_int buffer_overflow_err = negsuc 16
to_int malformed_header_err = negsuc 17
to_int continue_code = pos 1
to_int header_parse_err = negsuc 255
to_int header_parse_incomplete_err = negsuc 256

-- The inverse of `to_int` on the codes.
index : Code → ℕ
index c = elim (to_int c) [ pos n ↦ n | negsuc n ↦ n ]
