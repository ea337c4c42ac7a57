-- ===== src/Examples/Client.antt =====
-- A client that sends a request, and a world that waits for it.
use sculpt.Base.{
  ◌≤◌, zero, suc, none, List, ℕ, ◌+◌, ◌-◌, ◌≡◌, refl, true, false, Option, some, [], ◌∷◌, ◌++◌,
  Bytes, codes, length, get_elem?, All, arith, pos, ap, subst, ◌∙◌, append_assoc, length-append,
}
use sculpt.Machine.Lost.{Lost-none}
use sculpt.Machine.Since.{now}
use sculpt.Machine.Returns.{returns}
use sculpt.Machine.{Kernel, World, Endpoint, Reading, byte, other}
use sculpt.Machine.Reads.{count_reads, Feeds}
use sculpt.Machine.Holding.{Fresh}
use sculpt.Sample.{kernel, world, mgr}
use sculpt.Str.Order.{IsByte}
use sculpt.Endpoints.Dispatch.{Safe}
use sculpt.Endpoints.Bind.{bound-Holds, bound}
use sculpt.Request.{Request}
use sculpt.Request.Received.{IsRequest, request}
use sculpt.Poll.{blank_request}

-- The answer to a read.
abbrev pub reading_of : Reading → Option ℕ → Reading
reading_of last none = last
reading_of last (some c) = byte c

-- Descriptor 5 sends the bytes, and then each read gives the last answer.
abbrev pub client : Reading → Bytes → Kernel
client last s = record (kernel true) {
  errno = λ t. other;
  reading = λ t. reading_of last (get_elem? s (count_reads (pos 5) t - 1));
}

get_elem?-append : (a : Bytes) (c : ℕ) (s : Bytes) → get_elem? (a ++ c ∷ s) (length a) ≡ some c
get_elem?-append [] c s = refl
get_elem?-append (x ∷ a) c s = get_elem?-append a c s

pub client-Feeds :
    (last : Reading) (a s : Bytes) → Feeds (client last (a ++ s)) (pos 5) (length a) s
client-Feeds last a [] = tt
client-Feeds last a (c ∷ s) =
    let same : a ++ c ∷ [] ++ s ≡ a ++ c ∷ s = append_assoc a (c ∷ []) s in
    let len : length (a ++ c ∷ []) ≡ suc (length a) = omega (arith, length-append a (c ∷ [])) in
    (
      λ t e.
          let at_a : 1 + count_reads (pos 5) t - 1 ≡ length a = omega (arith, e) in
          ap (reading_of last) (ap (get_elem? (a ++ c ∷ s)) at_a ∙ get_elem?-append a c s),
      subst (λ b. Feeds (client last b) (pos 5) (suc (length a)) s) same
          (subst (λ n. Feeds (client last (a ++ c ∷ [] ++ s)) (pos 5) n s) len
            (client-Feeds last (a ++ c ∷ []) s)),
    )

abbrev pub lines : List Bytes
lines = codes "Host: sculpt" ∷ (codes "Connection: keep-alive" ∷ [])

abbrev pub get : Bytes
get = codes "GET"

abbrev pub path : Bytes
path = codes "/root"

abbrev pub version : Bytes
version = codes "HTTP/1.1"

abbrev pub sent : Bytes
sent = request get 1 path version lines

pub path_bytes : All IsByte path
path_bytes = omega arith

pub sent-IsRequest : IsRequest get 1 path version lines
sent-IsRequest = record {
  method_word = record {
    text = omega arith;
    solid = omega arith;
    nonempty = omega arith;
    fits = omega arith;
  };
  uri_word = record {
    text = omega arith;
    solid = omega arith;
    nonempty = omega arith;
    fits = omega arith;
  };
  rest_text = omega arith;
  first = record { plain = refl; text = refl; nonempty = omega arith; fits = omega arith };
  lines = (
    record { plain = refl; text = refl; nonempty = omega arith; fits = omega arith },
    (record { plain = refl; text = refl; nonempty = omega arith; fits = omega arith }, tt),
  );
}

-- A world with a route for `/root`.
abbrev pub route : Endpoint
route = bound 0 none path [] false 11

abbrev pub routed : World
routed = record world { mgr = record mgr { endpoints = route ∷ [] } }

-- The sample's handlers leave the world alone.
pub routed-Safe :
    (last : Reading) (s : Bytes) → All (Safe (client last s) 0 path) routed.mgr.endpoints
routed-Safe last s = (
  (
    record { path = path; holds = bound-Holds 0 none path [] false 11; bytes = omega arith },
    λ p g took fd msg headers ts w fresh hold text short.
        returns (record { same_mgr = refl; since = now; lost = Lost-none w w refl; fresh = fresh }),
  ),
  tt,
)

pub routed-Fresh : Fresh routed
routed-Fresh b h = ground (arith, h)

abbrev pub blank : Request
blank = blank_request ((kernel true).stack_msg [])

pub get_elem?-none : (s : Bytes) (i : ℕ) → length s ≤ i → get_elem? s i ≡ none
get_elem?-none [] i h = refl
get_elem?-none (c ∷ s) zero h = absurd (omega (arith, h))
get_elem?-none (c ∷ s) (suc i) h = get_elem?-none s i (omega (arith, h))
