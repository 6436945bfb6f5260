-- ===== src/Palette/Tests.antt =====
-- Runs of the colour functions, and their theorems at inputs that meet their hypotheses.
use autumnos_mobile.Common.{arith, [], ◌∷◌, pos}
use autumnos_mobile.Palette.{channel_at, al_blend}
use autumnos_mobile.Palette.Blend.{Between, al_blend-Between}

al_blend-Between_example :
    let out = al_blend 2 1 (0 ∷ 0x102030 ∷ []) (pos 1) (pos 0) 0xFFFFFF (pos 128) in
    Between 255 (channel_at out 16) 0x10
    × Between 255 (channel_at out 8) 0x20
    × Between 255 (channel_at out 0) 0x30
al_blend-Between_example =
    al_blend-Between 2 1 1 0 0xFFFFFF (pos 128) (0 ∷ 0x102030 ∷ []) (omega arith) (omega arith)
