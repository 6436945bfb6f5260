-- ===== src/Phone/Pin.antt =====
-- What the check of the PIN sees of the modem's answer.
use autumnos_mobile.Common.{
  ℕ, zero, suc, ◌-◌, ◌≤◌, ◌≡◌, refl, ap, ◌∙◌, true, false, some, none, List, [], ◌∷◌, ◌++◌, arith,
  if◌then◌else◌, ℤ, pos, ltb_ℤ, length, length-take, take, replicate, c_string, codes,
}
use autumnos_mobile.Modem.{Ports, tty_path, read_resp, mdioctl}
use autumnos_mobile.Modem.History.{Moment, after, Knows}
use autumnos_mobile.Modem.Found.{read_resp-Knows}
use autumnos_mobile.Phone.{hal_modemopen, hal_modemcheckpin, contains}

c_string-zeros : (a : List ℕ) (n : ℕ) → c_string (a ++ replicate (suc n) 0) ≡ c_string a
c_string-zeros [] n = refl
c_string-zeros (zero ∷ a) n = refl
c_string-zeros (suc c ∷ a) n = ap (λ s. suc c ∷ s) (c_string-zeros a n)

c_string-padded :
    (a : List ℕ) (n : ℕ)
    → length a ≤ n
    → c_string (a ++ replicate (suc n - length a) 0) ≡ c_string a
c_string-padded a n h =
    let more : suc n - length a ≡ suc (n - length a) = omega (arith, h) in
    ap (λ k. c_string (a ++ replicate k 0)) more ∙ c_string-zeros a (n - length a)

-- Through an open device, after any ioctls of which the last successful scan found port `i`: if the
-- port's file opens and bytes wait there, the check of the PIN gives 1 exactly where the word READY
-- stands in the first 127 of them, before the first NUL.
pub hal_modemcheckpin_lem :
    (h : List Moment) (i ready : ℕ) (ports : Ports) (bytes : List ℕ) (modem_fd opens : ℤ)
    → Knows h (some i) ready
    → (ports (tty_path i)).failure ≡ none
    → (ports (tty_path i)).waiting ≡ some bytes
    → ltb_ℤ (hal_modemopen modem_fd opens) (pos 0) ≡ false
    → hal_modemcheckpin modem_fd opens (mdioctl ports (read_resp true) (after h)).reply
      ≡ (if contains (codes "READY") (c_string (take 127 bytes)) then 1 else 0)
unfolding hal_modemcheckpin
hal_modemcheckpin_lem h i ready ports bytes modem_fd opens k works reads is_open =
    let small : length (take 127 bytes) ≤ 127 = omega (arith, length-take 127 bytes) in
    rw (is_open, read_resp-Knows h i ready ports bytes k works reads)
      (ap (λ t. if contains (codes "READY") t then 1 else 0)
        (c_string-padded (take 127 bytes) 127 small))
