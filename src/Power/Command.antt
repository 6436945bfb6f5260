-- ===== src/Power/Command.antt =====
-- What a command asks the power service for.
use autumnos_mobile.Common.{
  ℕ, ◌≡◌, refl, ap, Option, none, List, [], ◌∷◌, true, false, inl, inr, Bool-cases, text_eq, codes,
  sym, ◌∙◌, ◌≢◌, some, ℤ, text_eq_refl, text_eq_sound,
}
use autumnos_mobile.Touch.{print_int}
use autumnos_mobile.Power.{
  Os, Action, synced, autoboot, power_off, answer, actions, printed, getbatcpc,
}

-- What a command asks for: its answer, `none` where the machine goes down before there is one, and
-- what is done. The caches are written out before the machine is started again or switched off.
pub data Serves (os : Os) (command : List ℕ) : Option (List ℕ) → List Action → Type 0 where
  capacity :
      command ≡ codes "GETCPC"
      → Serves os command (some (print_int (getbatcpc os.supplies os.files))) []
  restart_fails :
      (result : ℤ)
      → command ≡ codes "RBT"
      → os.reboot_result ≡ some result
      → Serves os command (some (print_int result)) (synced ∷ autoboot ∷ [])
  restarts :
      command ≡ codes "RBT"
      → os.reboot_result ≡ none
      → Serves os command none (synced ∷ autoboot ∷ [])
  power_off_fails :
      (result : ℤ)
      → command ≡ codes "POWEROFF"
      → os.pwroff_result ≡ some result
      → Serves os command (some (print_int result)) (synced ∷ power_off ∷ [])
  powers_off :
      command ≡ codes "POWEROFF"
      → os.pwroff_result ≡ none
      → Serves os command none (synced ∷ power_off ∷ [])
  unknown :
      command ≢ codes "GETCPC"
      → command ≢ codes "RBT"
      → command ≢ codes "POWEROFF"
      → Serves os command (some (codes "UNKNOWN_COMMAND")) []

pub differs : (a b : List ℕ) → text_eq a b ≡ false → a ≢ b
differs a b e same = clash (sym e ∙ ap (λ t. text_eq t b) same ∙ text_eq_refl b)
  where
    clash : ¬ (false ≡ true)
    clash t = cc

pub answer-Serves :
    (os : Os) (command : List ℕ) → Serves os command (answer os command) (actions command)
unfolding answer actions
answer-Serves os command = elim (Bool-cases (text_eq command (codes "GETCPC"))) [
  | inl asks ↦ rw asks (Serves.capacity (text_eq_sound command _ asks))
  | inr other ↦ elim (Bool-cases (text_eq command (codes "RBT"))) [
    | inl boots ↦ rw (other, boots) (restart os.reboot_result refl (text_eq_sound command _ boots))
    | inr stays ↦ elim (Bool-cases (text_eq command (codes "POWEROFF"))) [
      | inl off ↦ rw (other, stays, off) (end os.pwroff_result refl (text_eq_sound command _ off))
      | inr odd ↦
          rw (other, stays, odd)
            (Serves.unknown (differs command _ other) (differs command _ stays)
              (differs command _ odd))
    ]
  ]
]
  where
    restart :
        (o : Option ℤ)
        → os.reboot_result ≡ o
        → command ≡ codes "RBT"
        → Serves os command (printed o) (synced ∷ autoboot ∷ [])
    restart none e c = Serves.restarts c e
    restart (some v) e c = Serves.restart_fails v c e

    end :
        (o : Option ℤ)
        → os.pwroff_result ≡ o
        → command ≡ codes "POWEROFF"
        → Serves os command (printed o) (synced ∷ power_off ∷ [])
    end none e c = Serves.powers_off c e
    end (some v) e c = Serves.power_off_fails v c e
