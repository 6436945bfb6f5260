-- ===== src/Tabl/Tests.antt =====
-- A history of the table, and its theorem at it.
use autumnos_mobile.Common.{◌≡◌, true, false, [], ◌∷◌}
use autumnos_mobile.Tabl.{registers, gets, other, found, eperm, efault, einval, dioctl}
use autumnos_mobile.Tabl.Owner.{History, after, owner, registered, dioctl_lem}

-- Process 5 registers twice; process 6 tries between.
abbrev history : History
history = (5, registers 300) ∷ (6, registers 200) ∷ (5, registers 100) ∷ []

dioctl_lem_example :
    ((dioctl 6 (registers 1) (after history)).1 ≡ eperm)
    × ((dioctl 6 (gets true) (after history)).1 ≡ found 300)
    × ((dioctl 6 (gets false) (after history)).1 ≡ efault)
    × ((dioctl 6 other (after history)).1 ≡ einval)
unfolding owner registered
dioctl_lem_example = dioctl_lem history 6 1
