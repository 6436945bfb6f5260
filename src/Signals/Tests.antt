-- ===== src/Signals/Tests.antt =====
-- Runs of the signal handling, and its theorems at inputs that meet their hypotheses.
use autumnos_mobile.Common.{◌+◌, ◌≤◌, ◌≡◌, refl, [], ◌∷◌, ◌++◌, arith, length, replicate, codes}
use autumnos_mobile.Signals.{sigsegv, sig_text, get_sig_name, halted, atmsig_handle}
use autumnos_mobile.Signals.Name.{shown, get_sig_name-shown}

get_sig_name-shown_example :
    (get_sig_name sigsegv (replicate 26 7) ≡ codes "SEGMENTATION FAULT (11)" ++ 0 ∷ 7 ∷ 7 ∷ [])
    × (length (shown sigsegv) + 1 ≤ 24)
unfolding sig_text
get_sig_name-shown_example = get_sig_name-shown sigsegv (replicate 26 7) (omega arith) (omega arith)

-- The tenth call ends the process.
tenth : atmsig_handle 9 sigsegv ≡ (10, halted)
unfolding atmsig_handle
tenth = refl
