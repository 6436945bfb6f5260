-- ===== src/Surf/Types.antt =====
-- The data of v0.1-alpha/API/libatmasurf.c. The header that declares its records is not in the
-- repository; their fields are those that the functions use. C's `int` is an integer.
use autumnos_mobile.Common.{ℕ, Bool, Option, List, ℤ, pos}

abbrev pub max_surfaces : ℕ
max_surfaces = 32

abbrev pub as_layer_systemui : ℤ
as_layer_systemui = pos 0

abbrev pub as_layer_app : ℤ
as_layer_app = pos 1

-- `memfd` is `none` for -1. `pixels` is the mapped memory as words, `none` for NULL.
pub record Layer : Type 0 where
  pub id : ℤ
  pub memfd : Option ℕ
  pub pixels : Option (List ℕ)
  pub x : ℤ
  pub y : ℤ
  pub w : ℤ
  pub h : ℤ
  pub z_order : ℤ
  pub layer_type : ℤ
  pub active : Bool

-- `AS_CTX_t`.
pub record Context : Type 0 where
  pub width : ℤ
  pub height : ℤ
  pub comp_buf : List ℕ
  pub layers : List Layer
