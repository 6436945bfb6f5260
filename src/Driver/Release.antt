-- ===== src/Driver/Release.antt =====
-- A module that fails to start, or ends, holds nothing.
use autumnos_mobile.Common.{
  ℕ, ◌≡◌, refl, Bool, true, false, Option, none, some, List, [], ◌∷◌, ◌==◌, pos, negsuc, arith,
  if◌then◌else◌,
}
use autumnos_mobile.Driver.{
  Resource, region, char_device, class_of, device, mapping, Call, acquired, released, Kernel,
  Statics, Started, Number, given, refused, gdinit, gdexit, mdinit, mdexit, devinit, devexit,
  start_cdev,
}

abbrev pub same : Resource → Resource → Bool
same (region a) (region b) = a == b
same char_device char_device = true
same class_of class_of = true
same (device a) (device b) = a == b
same mapping mapping = true
same _ _ = false

-- The resources that are held after some calls, the last one first. A resource that is given back
-- has to be the last one that is held, so that nothing is used after what it stands on: `none`
-- otherwise.
abbrev pub holding : List Resource → List Call → Option (List Resource)
holding held [] = some held
holding held (acquired r ∷ calls) = holding (r ∷ held) calls
holding [] (released r ∷ calls) = none
holding (h ∷ held) (released r ∷ calls) = if same h r then holding held calls else none

-- A start that succeeds holds `wanted` of the major number, and the end after it leaves nothing; one
-- that fails answers an error and leaves nothing.
pub data Clean (wanted : ℕ → List Resource) (started : Started) (ending : List Call) : Type 0 where
  runs :
      (major : ℕ)
      → started.result ≡ pos 0
      → holding [] started.calls ≡ some (wanted major)
      → holding (wanted major) ending ≡ some []
      → Clean wanted started ending
  fails :
      (k : ℕ)
      → started.result ≡ negsuc k
      → holding [] started.calls ≡ some []
      → Clean wanted started ending

same_number : (m : ℕ) → (m == m) ≡ true
same_number m = ground arith

abbrev pub chardev : ℕ → List Resource
chardev major = device major ∷ class_of ∷ char_device ∷ region major ∷ []

abbrev pub g2d_held : ℕ → List Resource
g2d_held major = mapping ∷ chardev major

abbrev pub tabl_held : ℕ → List Resource
tabl_held major = device major ∷ class_of ∷ region major ∷ []

abbrev answers : Number → Bool → Option ℕ → Option ℕ → Bool → Kernel
answers r c cls dev m = record {
  region_answer = r;
  cdev_added = c;
  class_error = cls;
  device_error = dev;
  mapped = m;
}

gdinit_cases :
    (r : Number) (c : Bool) (cls dev : Option ℕ) (m : Bool) (s : Statics)
    → let started = gdinit (answers r c cls dev m) s in
      Clean g2d_held started (gdexit started.statics)
unfolding gdinit start_cdev gdexit
gdinit_cases (refused k) c cls dev m s = Clean.fails 0 refl refl
gdinit_cases (given n) false cls dev m s = Clean.fails 0 refl (rw (same_number n) refl)
gdinit_cases (given n) true (some k) dev m s = Clean.fails k refl (rw (same_number n) refl)
gdinit_cases (given n) true none (some k) m s = Clean.fails 0 refl (rw (same_number n) refl)
gdinit_cases (given n) true none none false s = Clean.fails 11 refl (rw (same_number n) refl)
gdinit_cases (given n) true none none true s = Clean.runs n refl refl (rw (same_number n) refl)

mdinit_cases :
    (r : Number) (c : Bool) (cls dev : Option ℕ) (m : Bool) (s : Statics)
    → let started = mdinit (answers r c cls dev m) s in
      Clean chardev started (mdexit started.statics)
unfolding mdinit start_cdev mdexit
mdinit_cases (refused k) c cls dev m s = Clean.fails 0 refl refl
mdinit_cases (given n) false cls dev m s = Clean.fails 0 refl (rw (same_number n) refl)
mdinit_cases (given n) true (some k) dev m s = Clean.fails k refl (rw (same_number n) refl)
mdinit_cases (given n) true none (some k) m s = Clean.fails 0 refl (rw (same_number n) refl)
mdinit_cases (given n) true none none m s = Clean.runs n refl refl (rw (same_number n) refl)

devinit_cases :
    (r : Number) (c : Bool) (cls dev : Option ℕ) (m : Bool) (s : Statics)
    → let started = devinit (answers r c cls dev m) s in
      Clean tabl_held started (devexit started.statics)
unfolding devinit devexit
devinit_cases (refused k) c cls dev m s = Clean.fails k refl refl
devinit_cases (given n) c (some k) dev m s = Clean.fails k refl (rw (same_number n) refl)
devinit_cases (given n) c none (some k) m s = Clean.fails k refl (rw (same_number n) refl)
devinit_cases (given n) c none none m s = Clean.runs n refl refl (rw (same_number n) refl)

-- Whatever the kernel answers, a start of one of the three modules that fails answers an error and
-- has given back all that it had acquired, each resource before what it stands on. A start that
-- succeeds holds the number, the class and the device, the G2D module and the modem's the character
-- device as well and the G2D module the mapping of the registers; the end of the module after it
-- gives all of that back, in the same order.
pub inits-Clean :
    (kernel : Kernel) (s : Statics)
    → (let started = gdinit kernel s in Clean g2d_held started (gdexit started.statics))
      × (let started = mdinit kernel s in Clean chardev started (mdexit started.statics))
      × (let started = devinit kernel s in Clean tabl_held started (devexit started.statics))
inits-Clean kernel s =
    let r = kernel.region_answer in
    let c = kernel.cdev_added in
    let cls = kernel.class_error in
    let dev = kernel.device_error in
    (
      gdinit_cases r c cls dev kernel.mapped s,
      mdinit_cases r c cls dev kernel.mapped s,
      devinit_cases r c cls dev kernel.mapped s,
    )
