-- ===== src/Tabl/Owner.antt =====
-- Who owns the table after a history of calls, and what it holds.
use autumnos_mobile.Common.{
  ℕ, ◌≡◌, refl, ap, true, false, ◌||◌, List, [], ◌∷◌, arith, ◌==◌, if◌then◌else◌,
}
use autumnos_mobile.Tabl.{
  Table, start, Command, registers, gets, other, success, found, eperm, efault, einval, dioctl,
}

-- A history is the calls with their processes, the last one first.
abbrev pub History : Type 0
History = List (ℕ × Command)

unfoldable pub after : History → Table
unfolding dioctl
after [] = start
after ((pid, c) ∷ past) = (dioctl pid c (after past)).0

-- The process that registered first.
unfoldable pub owner : History → ℕ
owner [] = 0
owner ((pid, registers arg) ∷ past) = if owner past == 0 then pid else owner past
owner ((pid, gets copied) ∷ past) = owner past
owner ((pid, other) ∷ past) = owner past

-- What the owner registered last.
unfoldable pub registered : History → ℕ
unfolding owner
registered [] = 0
registered ((pid, registers arg) ∷ past) =
    if owner ((pid, registers arg) ∷ past) == pid then arg else registered past
registered ((pid, gets copied) ∷ past) = registered past
registered ((pid, other) ∷ past) = registered past

after_lem :
    (cs : History) → ((after cs).session_pid ≡ owner cs) × ((after cs).reg_srv_data ≡ registered cs)
unfolding after owner registered dioctl
after_lem [] = (refl, refl)
after_lem ((pid, registers arg) ∷ past) = ground (arith, after_lem past)
after_lem ((pid, gets true) ∷ past) = after_lem past
after_lem ((pid, gets false) ∷ past) = after_lem past
after_lem ((pid, other) ∷ past) = after_lem past

-- After any history of calls, a registration by the process that registered first succeeds, as it
-- does if none has, one by any other process is refused, and a read finds what the owner registered
-- last, or 0, or fails where the caller's memory cannot be written.
pub dioctl_lem :
    (cs : History) (pid arg : ℕ)
    → ((dioctl pid (registers arg) (after cs)).1
        ≡ (if (owner cs == 0) || (owner cs == pid) then success else eperm))
      × ((dioctl pid (gets true) (after cs)).1 ≡ found (registered cs))
      × ((dioctl pid (gets false) (after cs)).1 ≡ efault)
      × ((dioctl pid other (after cs)).1 ≡ einval)
unfolding dioctl
dioctl_lem cs pid arg = (ground (arith, after_lem cs), ap found (after_lem cs).1, refl, refl)
