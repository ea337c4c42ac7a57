-- ===== src/Request/Arrives.antt =====
-- A request that comes whole, or up to a pause.
use sculpt.Base.{
  ℕ, ◌+◌, ◌≡◌, ◌<◌, true, false, Option, none, some, List, ◌++◌, Bytes, ℤ, has, length,
}
use sculpt.Machine.{Kernel}
use sculpt.Machine.Reads.{Feeds}
use sculpt.Reader.{cr, header_buf_size}
use sculpt.Reader.Line.{Stops}
use sculpt.Request.Received.{request}
use sculpt.Request.Paused.{piece, paused_request}

-- The headers that are seen, where the client may pause with a piece of one more.
abbrev pub seen : List Bytes → Option Bytes → List Bytes
seen ls none = ls
seen ls (some p) = ls ++ piece p

-- From its read number `start` on, the client sends the request, whole or up to a pause, and the fuel is enough.
abbrev pub Arrives :
    Kernel
    → (fuel : ℕ) → ℤ
    → (start : ℕ) → Bytes
    → ℕ
    → Bytes
    → Bytes
    → List Bytes
    → Option Bytes
    → Type 0
Arrives k fuel fd start method n uri rest ls none =
    Feeds k fd start (request method n uri rest ls) × (length ls < fuel)
Arrives k fuel fd start method n uri rest ls (some p) =
    (has cr p ≡ false)
    × (has 0 p ≡ false)
    × (length p + 2 < header_buf_size)
    × Feeds k fd start (paused_request method n uri rest ls p)
    × Stops k fd true (start + length (paused_request method n uri rest ls p))
    × (length ls + 1 < fuel)
