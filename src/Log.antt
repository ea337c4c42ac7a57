-- ===== src/Log.antt =====
-- The messages of src/sculpt_util.c and the level that they are printed from.
use sculpt.Base.{Bool, not, ◌||◌, ℤ, pos, negsuc, ltb_ℤ, ◌==ℤ◌, Bytes, ◌≡◌, ◌≢◌, ◌↔◌, arith}
use sculpt.Machine.{Cmd, get_mgr, emit, print, when, ◌>>=◌}

abbrev pub ll_none : ℤ
ll_none = pos 0

-- The test of the three functions, on the manager's level and that of the message.
pub is_logged : ℤ → ℤ → Bool
is_logged mgr_ll ll = not (ll ==ℤ ll_none || ltb_ℤ ll mgr_ll)

-- `sc_log`, `sc_error_log` and `sc_perror` of a text that has been formatted.
pub log_message : ℤ → Bytes → Cmd (Unit {0})
unfolding is_logged
log_message ll text = do m ← get_mgr; when (is_logged m.ll ll) (emit (print text))

-- The rule in the comment of `sc_log`: the manager's level is at least that of the message.
pub documented : ℤ → ℤ → Bool
documented mgr_ll ll = not (ltb_ℤ mgr_ll ll)

-- For a message that has a level, the test in `sc_log` and the rule in its comment agree at the
-- manager's own level and at no other.
pub is_logged-documented :
    (mgr_ll ll : ℤ) → ll ≢ ll_none → (is_logged mgr_ll ll ≡ documented mgr_ll ll) ↔ (ll ≡ mgr_ll)
unfolding is_logged documented
is_logged-documented (pos m) (pos n) level = ground (arith, level)
is_logged-documented (pos m) (negsuc n) level = ground (arith, level)
is_logged-documented (negsuc m) (pos n) level = ground (arith, level)
is_logged-documented (negsuc m) (negsuc n) level = ground (arith, level)
