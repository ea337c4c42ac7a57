-- ===== src/Examples/Life.antt =====
-- A run of the sample program from its start to its end: one connection comes in, and then the signal.
use sculpt.Base.{ℤ, true, false, some, [], ◌∷◌, pos}
use sculpt.Machine.{Kernel, World, Event, Trace, fd, socket, epoll_create}
use sculpt.Machine.Lost.{Lost}
use sculpt.Machine.Occurs.{Occurs}
use sculpt.Machine.Returns.{Returns}
use sculpt.Sample.{kernel, mgr}
use sculpt.App.Willing.{Willing}

-- The socket is 3 and the epoll descriptor 4.
abbrev answer : Trace → ℤ
answer (socket ∷ t) = pos 3
answer (epoll_create ∷ t) = pos 4
answer t = pos 0

abbrev knock : Event
knock = record { err = false; hup = false; rdhup = false; readable = true; payload = fd (pos 3) }

abbrev visited : Kernel
visited = record (kernel true) { result = answer; ready = λ t. some (knock ∷ []) }

-- No block is in use.
abbrev start : World
start = record { mgr = mgr; trace = []; live = λ b. false; next_block = 0 }
