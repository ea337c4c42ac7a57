-- ===== src/Endpoints/Halts.antt =====
-- The search for a handler, and what follows it, always end.
use sculpt.Base.{ℕ, ℤ, Option, none, some, List}
use sculpt.Machine.{Kernel, World, HttpMsg, Header, Endpoint}
use sculpt.Machine.Halts.{Any, Halts, halts, and_then-Halts, need-Halts}
use sculpt.Headers.Halts.{str_free-Halts}
use sculpt.Endpoints.{respond, dispatch, find_endpoint}

-- The handlers that are called end.
abbrev pub HandlersEnd : Kernel → Type 0
HandlersEnd k =
    (f : ℕ) (fd : ℤ) (msg : HttpMsg) (headers : List Header) (w : World)
    → Halts Any (k.run_handler f fd msg headers w)

respond-Halts :
    (k : Kernel)
    → HandlersEnd k
    → (fd : ℤ) (msg : HttpMsg) (headers : List Header) (found : Option Endpoint) (w : World)
    → Halts Any (respond k fd msg headers found w)
unfolding respond
respond-Halts k ends fd msg headers none w = halts tt
respond-Halts k ends fd msg headers (some e) w =
    and_then-Halts (ends e.func fd msg headers _)
      λ _ u g. and_then-Halts (str_free-Halts msg.uri u) λ _ v h. str_free-Halts msg.method v

pub dispatch-Halts :
    (k : Kernel)
    → HandlersEnd k
    → (fd : ℤ) (msg : HttpMsg) (headers : List Header) (w : World)
    → Halts Any (dispatch k fd msg headers w)
unfolding dispatch
dispatch-Halts k ends fd msg headers w =
    and_then-Halts (need-Halts {P = Any} (find_endpoint w.mgr.endpoints msg.uri) w (λ f. tt))
      λ found v h. respond-Halts k ends fd msg headers found v
