-- ===== src/App/Life.antt =====
-- A run of `main` from its start to its end: what is left of the blocks that it took.
use sculpt.Machine.Occurs.{Occurs}
use sculpt.Machine.Lost.{Lost}
use sculpt.Machine.Returns.{Returns}
use sculpt.App.Willing.{Willing}
