-- ===== src/Examples/Requests.antt =====
-- Request lines and endpoints at concrete inputs.
use sculpt.Base.{
  All, ◌≡◌, refl, true, false, Option, none, some, [], ◌∷◌, ◌++◌, Bytes, codes, arith,
}
use sculpt.Machine.{at, Str, Endpoint, World, ok, fault}
use sculpt.Machine.Returns.{Returns}
use sculpt.Sample.{kernel, world, mgr}
use sculpt.Code.{ok_code, buffer_overflow_err, malloc_err}
use sculpt.Str.{Holds}
use sculpt.Str.Order.{IsByte}
use sculpt.Message.{get_http_msg, method_buf_size, url_buf_size}
use sculpt.Message.RequestLine.{IsWord, ReadBack, request_line, get_http_msg-request_line}
use sculpt.Message.Overflow.{line_of, get_http_msg_overrun, get_http_msg_long}
use sculpt.Endpoints.{find_endpoint, bind_hard, bind_soft, ll_debug}
use sculpt.Endpoints.Lookup.{First, find_endpoint-First}
use sculpt.Endpoints.Bind.{
  bound-Holds, bound, Routed, bind_hard-Routed, bind_soft-Routed, bind_hard_forgets,
}

abbrev get : Bytes
get = codes "GET"

abbrev path : Bytes
path = codes "/root"

abbrev version : Bytes
version = codes "HTTP/1.1"

get-IsWord : IsWord method_buf_size get
get-IsWord = record {
  text = omega arith;
  solid = omega arith;
  nonempty = omega arith;
  fits = omega arith;
}

path-IsWord : IsWord url_buf_size path
path-IsWord = record {
  text = omega arith;
  solid = omega arith;
  nonempty = omega arith;
  fits = omega arith;
}

get_http_msg-request_line_example :
    Returns
      (ReadBack get path world)
      (get_http_msg (kernel true) true (at none (request_line get 2 path version ++ 0 ∷ [])) world)
get_http_msg-request_line_example =
    get_http_msg-request_line (kernel true) (λ t n. refl) get path version 2 world none []
      get-IsWord path-IsWord (omega arith)

-- Sixteen letters.
abbrev sixteen : Bytes
sixteen = codes "ABCDEFGHIJKLMNOP"

get_http_msg_overrun_example :
    get_http_msg (kernel true) true (at none (line_of sixteen version ++ 0 ∷ [])) world ≡ fault
get_http_msg_overrun_example =
    get_http_msg_overrun (kernel true) world none sixteen version [] (omega arith) (omega arith)
      (omega arith) refl

get_http_msg_long_example :
    get_http_msg (kernel true) true (at none (line_of (b'Q' ∷ sixteen) version ++ 0 ∷ [])) world
    ≡ ok (buffer_overflow_err, none) world
get_http_msg_long_example =
    get_http_msg_long (kernel true) world none (b'Q' ∷ sixteen) version [] (omega arith)
      (omega arith) (omega arith) (omega arith)

abbrev uri : Str
uri = record { buf = at (some 9) (path ++ 0 ∷ []); len = 5 }

uri-Holds : Holds uri path
uri-Holds = record { block = some 9; rest = 0 ∷ []; buf = refl; len = refl }

path_bytes : All IsByte path
path_bytes = omega arith

-- A soft endpoint for `/` behind a hard one for `/x`.
abbrev hard_x : Endpoint
hard_x = bound 5 none (codes "/x") [] false 11

abbrev soft_root : Endpoint
soft_root = bound 6 none (codes "/") [] true 22

find_endpoint-First_example :
    (r : Option Endpoint) × (find_endpoint (hard_x ∷ soft_root ∷ []) uri ≡ some r)
    × First uri path uri-Holds path_bytes (hard_x ∷ soft_root ∷ []) r
find_endpoint-First_example =
    find_endpoint-First uri path uri-Holds path_bytes (hard_x ∷ soft_root ∷ []) (
      record {
        path = codes "/x";
        holds = bound-Holds 5 none (codes "/x") [] false 11;
        bytes = omega arith;
      },
      (
        record {
          path = codes "/";
          holds = bound-Holds 6 none (codes "/") [] true 22;
          bytes = omega arith;
        },
        tt,
      ),
    )

bind_hard-Routed_example :
    Returns
      (λ q v.
        (q ≡ ok_code)
        × Routed (bound 2 none path [] false 33) path path uri world.mgr.endpoints v.mgr.endpoints)
      (bind_hard (kernel true) (at none (path ++ 0 ∷ [])) 33 world)
bind_hard-Routed_example =
    bind_hard-Routed (kernel true) world none path [] 33 uri path (omega arith) (omega arith)
      uri-Holds (omega arith) refl

bind_soft-Routed_example :
    Returns
      (λ q v.
        (q ≡ ok_code)
        × Routed (bound 2 none path [] true 33) path path uri world.mgr.endpoints v.mgr.endpoints)
      (bind_soft (kernel true) (at none (path ++ 0 ∷ [])) 33 world)
bind_soft-Routed_example =
    bind_soft-Routed (kernel true) world none path [] 33 uri path (omega arith) (omega arith)
      uri-Holds (omega arith) refl

-- A world with an endpoint, at the debug level.
abbrev bound_world : World
bound_world = record world { mgr = record mgr { endpoints = soft_root ∷ []; ll = ll_debug } }

bind_hard_forgets_example :
    Returns
      (λ q v. (q ≡ malloc_err) × ((u : Str) → find_endpoint v.mgr.endpoints u ≡ some none))
      (bind_hard (kernel false) (at none (path ++ 0 ∷ [])) 33 bound_world)
bind_hard_forgets_example =
    bind_hard_forgets (kernel false) bound_world (at none (path ++ 0 ∷ [])) 33 refl
