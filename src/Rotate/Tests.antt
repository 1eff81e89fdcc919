-- ===== src/Rotate/Tests.antt =====
-- Runs of rotate.c on small pictures.
use cy_prus.Prelude.{
  ℕ, zero, suc, ◌*◌, ◌<◌, ◌≢◌, refl, List, [], ◌∷◌, get_or, replicate, some, arith,
}
use cy_prus.Prelude.Int.{pos}
use cy_prus.Rotate.{Setup, yuv420p, other, reverse_inplace_quad}
use cy_prus.Rotate.Planes.{Maps90, rotate_map-Maps90}
use cy_prus.Rotate.Quads.{Reversed, reverse_inplace_quad-Reversed}

-- A picture of four by two pixels with its chroma planes.
abbrev picture : List ℕ
picture = 1 ∷ 2 ∷ 3 ∷ 4 ∷ 5 ∷ 6 ∷ 7 ∷ 8 ∷ 100 ∷ 101 ∷ 200 ∷ 201 ∷ []

abbrev turning : ℕ → Setup
turning deg = record {
  rotate_deg = pos deg;
  degrees = pos deg;
  cap_width = 4;
  cap_height = 2;
  width = 2;
  height = 4;
  temp_size = some 12;
}

quarter_turn_example : Maps90 2 1 (turning 90) picture (replicate 12 0)
quarter_turn_example =
    rotate_map-Maps90 2 1 (turning 90) picture (replicate 12 0) refl refl (omega arith) refl

abbrev block : List ℕ
block = 9 ∷ 1 ∷ 2 ∷ 3 ∷ 4 ∷ 5 ∷ 6 ∷ 7 ∷ 8 ∷ 9 ∷ []

block_byte : (i : ℕ) → get_or block i 0 < 256
block_byte zero = omega arith
block_byte (suc zero) = omega arith
block_byte (suc (suc zero)) = omega arith
block_byte (suc (suc (suc zero))) = omega arith
block_byte (suc (suc (suc (suc zero)))) = omega arith
block_byte (suc (suc (suc (suc (suc zero))))) = omega arith
block_byte (suc (suc (suc (suc (suc (suc zero)))))) = omega arith
block_byte (suc (suc (suc (suc (suc (suc (suc zero))))))) = omega arith
block_byte (suc (suc (suc (suc (suc (suc (suc (suc zero)))))))) = omega arith
block_byte (suc (suc (suc (suc (suc (suc (suc (suc (suc zero))))))))) = omega arith
block_byte (suc (suc (suc (suc (suc (suc (suc (suc (suc (suc i)))))))))) = omega arith

reverse_example : Reversed 1 (8 * 1) block (reverse_inplace_quad 1 (8 * 1) block)
reverse_example = reverse_inplace_quad-Reversed 1 1 block block_byte (omega arith)

yuv≢other : yuv420p ≢ other
yuv≢other e = ground arith
