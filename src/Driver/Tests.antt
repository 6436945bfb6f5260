-- ===== src/Driver/Tests.antt =====
-- Starts of the modules, and the theorem at one.
use autumnos_mobile.Common.{◌≡◌, refl, true, false, none, some, [], ◌∷◌, pos, ◌^◌, ◌+◌}
use autumnos_mobile.Driver.{
  Kernel, Statics, given, gdinit, gdexit, mdinit, mdexit, devinit, devexit, start_cdev, region,
  char_device, class_of, acquired, released,
}
use autumnos_mobile.Driver.Release.{Clean, g2d_held, chardev, tabl_held, inits-Clean}
use autumnos_mobile.Driver.Blit.{Blt, bitblt, gdioctl, wait_idle, writel, readl}

abbrev unset : Statics
unset = record { major_num = 0; base_addr = false }

abbrev no_device : Kernel
no_device = record {
  region_answer = given 240;
  cdev_added = true;
  class_error = none;
  device_error = some 3;
  mapped = true;
}

gdinit-no_device :
    (gdinit no_device unset).calls
    ≡ acquired (region 240)
      ∷ acquired char_device
      ∷ acquired class_of
      ∷ released class_of
      ∷ released char_device
      ∷ released (region 240)
      ∷ []
unfolding gdinit start_cdev
gdinit-no_device = refl

inits-Clean_example :
    (let started = gdinit no_device unset in Clean g2d_held started (gdexit started.statics))
    × (let started = mdinit no_device unset in Clean chardev started (mdexit started.statics))
    × (let started = devinit no_device unset in Clean tabl_held started (devexit started.statics))
inits-Clean_example = inits-Clean no_device unset

abbrev copy : Blt
copy = record {
  src = record { addr = 2 ^ 32 + 5; pitch = 64 };
  dst = record { addr = 9; pitch = 64 };
}

-- Two reads of the status until the engine is idle.
gdioctl-copy :
    gdioctl true 6 (3 ∷ 2 ∷ []) (bitblt (some copy))
    ≡ some (
      pos 0,
      writel 0x40 5
          ∷ writel 0x4C 64
          ∷ writel 0x200 9
          ∷ readl 0
          ∷ writel 0 7
          ∷ readl 4
          ∷ readl 4
          ∷ [],
    )
unfolding gdioctl wait_idle
gdioctl-copy = refl
