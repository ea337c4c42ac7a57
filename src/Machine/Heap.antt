-- ===== src/Machine/Heap.antt =====
-- `malloc` and `free` over the blocks that are live.
use sculpt.Base.{ℕ, Bool, true, false, Option, none, some, ◌+◌, ◌==◌, if◌then◌else◌}
use sculpt.Machine.{Kernel, Cmd, malloc, free, log, ok, fault}

abbrev pub mark : (ℕ → Bool) → ℕ → Bool → ℕ → Bool
mark live b v a = if a == b then v else live a

-- `none` is NULL; otherwise a block that no one holds.
unfoldable pub alloc : Kernel → ℕ → Cmd (Option ℕ)
alloc k n w =
    let w' = log (malloc n) w in
    if k.grants w'.trace
    then ok (some w.next_block)
        (record w' { live = mark w.live w.next_block true; next_block = w.next_block + 1 })
    else ok none w'

-- `free` of a block that is not live is a fault.
unfoldable pub release : ℕ → Cmd (Unit {0})
release b w =
    if w.live b then ok tt (record (log (free b) w) { live = mark w.live b false }) else fault
