-- ===== src/Driver/Blit.antt =====
-- The ioctl of v0.1-alpha/kernel/module/g2dwrap.c. The registers' answers are arguments.
use autumnos_mobile.Common.{
  ℕ, Bool, true, false, not, Option, none, some, List, [], ◌∷◌, ◌==◌, ℤ, pos, negsuc, if◌then◌else◌,
  u32, bit_and, bit_or,
}

pub record Image : Type 0 where
  pub addr : ℕ
  pub pitch : ℕ

pub record Blt : Type 0 where
  pub src : Image
  pub dst : Image

-- The command; the copy of its argument is `none` where it fails.
pub data Command : Type 0 where
  bitblt : Option Blt → Command
  other : Command

-- An access of the registers: the offset, and the 32 bits that are written.
pub data Access : Type 0 where
  writel : ℕ → ℕ → Access
  readl : ℕ → Access

abbrev busy : ℕ → Bool
busy status = not (bit_and status 1 == 0)

-- The loop that reads G2D_STATUS; `none` if the engine is busy for ever.
unfoldable pub wait_idle : List ℕ → Option (List Access)
wait_idle [] = none
wait_idle (status ∷ later) =
    let rest = wait_idle later in
    if busy status
    then elim rest [ none ↦ none | some reads ↦ some (readl 4 ∷ reads) ]
    else some (readl 4 ∷ [])

-- What `gdioctl` returns, and its accesses. -EFAULT is -14 and -EINVAL is -22.
unfoldable pub gdioctl : Bool → ℕ → List ℕ → Command → Option (ℤ × List Access)
unfolding wait_idle
gdioctl false ctl status command = some (negsuc 13, [])
gdioctl true ctl status other = some (negsuc 21, [])
gdioctl true ctl status (bitblt none) = some (negsuc 13, [])
gdioctl true ctl status (bitblt (some blt)) = elim (wait_idle status) [
  | none ↦ none
  | some reads ↦ some (
    pos 0,
    writel 0x40 (u32 blt.src.addr)
        ∷ writel 0x4C (u32 blt.src.pitch)
        ∷ writel 0x200 (u32 blt.dst.addr)
        ∷ readl 0
        ∷ writel 0 (u32 (bit_or ctl 1))
        ∷ reads,
  )
]
