-- ===== src/Driver.antt =====
-- The start and the end of the kernel modules v0.1-alpha/kernel/module/g2dwrap.c, s800modem.c and
-- tabloader.c: the resources that they ask the kernel for and give back. A call's answer is an
-- argument; the calls that are made are recorded in order.
pub mod Release
pub mod Blit
mod Tests
use autumnos_mobile.Common.{
  ℕ, Bool, true, false, not, Option, none, some, List, [], ◌∷◌, ◌++◌, ℤ, pos, negsuc, if◌then◌else◌,
}

-- What a module holds: numbers for its character device, the device in the kernel's table, a class,
-- a device file, and a mapping of hardware registers.
pub data Resource : Type 0 where
  region : ℕ → Resource
  char_device : Resource
  class_of : Resource
  device : ℕ → Resource
  mapping : Resource

pub data Call : Type 0 where
  acquired : Resource → Call
  released : Resource → Call

-- The answers of the kernel to one start: the major number, or an error `- 1 - k`.
pub data Number : Type 0 where
  given : ℕ → Number
  refused : ℕ → Number

pub record Kernel : Type 0 where
  pub region_answer : Number
  pub cdev_added : Bool
  pub class_error : Option ℕ
  pub device_error : Option ℕ
  pub mapped : Bool

-- The static variables that the end of a module uses.
pub record Statics : Type 0 where
  pub major_num : ℕ
  pub base_addr : Bool

-- What a start returns, the calls that it made, and the variables after it.
pub record Started : Type 0 where
  pub result : ℤ
  pub calls : List Call
  pub statics : Statics

abbrev error : ℕ → List Call → Statics → Started
error k calls statics = record { result = negsuc k; calls = calls; statics = statics }

abbrev success : List Call → Statics → Started
success calls statics = record { result = pos 0; calls = calls; statics = statics }

abbrev drop_cdev : ℕ → List Call
drop_cdev major = released char_device ∷ released (region major) ∷ []

-- The first four steps of `gdinit` and all those of `mdinit`; `next` is what follows.
pub start_cdev : Kernel → Statics → (List Call → Statics → Started) → Started
start_cdev kernel s next = elim kernel.region_answer [
  | refused k ↦ error 0 [] s
  | given major ↦
      let s' : Statics = record s { major_num = major } in
      let numbers = acquired (region major) ∷ [] in
      if not kernel.cdev_added
      then error 0 (numbers ++ released (region major) ∷ []) s'
      else let added = numbers ++ acquired char_device ∷ [] in
        elim kernel.class_error [
          | some k ↦ error k (added ++ drop_cdev major) s'
          | none ↦
              let classed = added ++ acquired class_of ∷ [] in
              elim kernel.device_error [
                | some k ↦ error 0 (classed ++ released class_of ∷ drop_cdev major) s'
                | none ↦ next (classed ++ acquired (device major) ∷ []) s'
              ]
        ]
]

abbrev drop_all : ℕ → List Call
drop_all major = released (device major) ∷ released class_of ∷ drop_cdev major

-- `gdinit`; -ENOMEM is -12.
pub gdinit : Kernel → Statics → Started
unfolding start_cdev
gdinit kernel s = start_cdev kernel s (λ calls s'.
    let s'' : Statics = record s' { base_addr = kernel.mapped } in
    if not kernel.mapped
    then error 11 (calls ++ drop_all s''.major_num) s''
    else success (calls ++ acquired mapping ∷ []) s'')

pub gdexit : Statics → List Call
gdexit s = (if s.base_addr then released mapping ∷ [] else []) ++ drop_all s.major_num

pub mdinit : Kernel → Statics → Started
unfolding start_cdev
mdinit kernel s = start_cdev kernel s success

pub mdexit : Statics → List Call
mdexit s = drop_all s.major_num

-- `devinit`, where one call gives the numbers and the device in the kernel's table.
pub devinit : Kernel → Statics → Started
devinit kernel s = elim kernel.region_answer [
  | refused k ↦ error k [] s
  | given major ↦
      let s' : Statics = record s { major_num = major } in
      let numbers = acquired (region major) ∷ [] in
      elim kernel.class_error [
        | some k ↦ error k (numbers ++ released (region major) ∷ []) s'
        | none ↦
            let classed = numbers ++ acquired class_of ∷ [] in
            elim kernel.device_error [
              | some k ↦ error k (classed ++ released class_of ∷ released (region major) ∷ []) s'
              | none ↦ success (classed ++ acquired (device major) ∷ []) s'
            ]
      ]
]

pub devexit : Statics → List Call
devexit s = released (device s.major_num) ∷ released class_of ∷ released (region s.major_num) ∷ []
