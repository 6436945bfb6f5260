-- ===== src/Touch/Tests.antt =====
-- Touches, and the theorem at one.
use autumnos_mobile.Common.{◌≡◌, refl, [], ◌∷◌, ◌++◌, arith, pos, negsuc, min, ◌*◌, ◌/◌, ◌-◌}
use autumnos_mobile.Tunnel.{receives, run, create_mapping}
use autumnos_mobile.Touch.{first_finger, Mouse, scan_touch, inputd, print_int}
use autumnos_mobile.Touch.Arrive.{session, send_all, touching, touching-arrives}

abbrev nowhere : Mouse
nowhere = record { mouse_x = pos 0; mouse_y = pos 0; mouse_btn1 = pos 0 }

print-negative : print_int (negsuc 40) ≡ b'-' ∷ b'4' ∷ b'1' ∷ []
print-negative = refl

-- Text that stops early leaves the other two numbers.
scan_touch-short :
    scan_touch
      (b'T' ∷ b'O' ∷ b'U' ∷ b'C' ∷ b'H' ∷ b'_' ∷ b'E' ∷ b'V' ∷ b'E' ∷ b'N' ∷ b'T' ∷ b' ' ∷ b'X'
        ∷ b':' ∷ b'7' ∷ [])
      nowhere
    ≡ record { mouse_x = pos 7; mouse_y = pos 0; mouse_btn1 = pos 0 }
unfolding scan_touch
scan_touch-short = refl

touching-arrives_example :
    session
      (pos 480)
      (pos 800)
      (run create_mapping
        (send_all (inputd (touching 32767 100 (pos 1)) first_finger) ++ receives ∷ []))
      nowhere
    ≡ record {
      mouse_x = pos (min (32767 * 480 / 32767) (480 - 1));
      mouse_y = pos (min (100 * 800 / 32767) (800 - 1));
      mouse_btn1 = pos 1;
    }
touching-arrives_example =
    touching-arrives 480 800 32767 100 (pos 1) first_finger nowhere (omega arith) (omega arith)
      (omega arith) (omega arith) (omega arith)
