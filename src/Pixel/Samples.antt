-- ===== src/Pixel/Samples.antt =====
-- The shift of every format whose samples have fewer bits than their words.
use vimbax_ros2_driver.Common.{
  ℕ, ◌-◌, ◌*◌, ◌^◌, ◌<◌, ◌≡◌, ◌⊎◌, inl, inr, Option, none, some, List, [], ◌∷◌, All, arith, ◌==◌,
  ==_iff, Bool-cases,
}
use vimbax_ros2_driver.Pixel.{row_of, shift_of}
use mathlib.Core.Path.{subst}
use vimbax_ros2_driver.Pixel.Formats
use vimbax_ros2_driver.Shift.{shift_word}

-- The bits of a sample, as the names of the formats give them.
abbrev sample_bits : List (ℕ × Option ℕ)
sample_bits =
    (Formats.mono10, some 10)
    ∷ (Formats.bayer_gr10, some 10)
    ∷ (Formats.bayer_rg10, some 10)
    ∷ (Formats.bayer_gb10, some 10)
    ∷ (Formats.bayer_bg10, some 10)
    ∷ (Formats.mono12, some 12)
    ∷ (Formats.bayer_gr12, some 12)
    ∷ (Formats.bayer_rg12, some 12)
    ∷ (Formats.bayer_gb12, some 12)
    ∷ (Formats.bayer_bg12, some 12)
    ∷ (Formats.mono14, some 14)
    ∷ []

abbrev pub sample_bits_of : ℕ → Option ℕ
sample_bits_of f = row_of sample_bits none f

-- The shift that leaves no room above a sample of that width.
abbrev Fills : ℕ × Option ℕ → Type 0
Fills (f, none) = Unit {0}
Fills (f, some b) = (shift_of f ≡ some (16 - b)) × ((b ≡ 10) ⊎ (b ≡ 12) ⊎ (b ≡ 14))

row_of-Fills : (rows : List (ℕ × Option ℕ)) (f : ℕ) → All Fills rows → Fills (f, row_of rows none f)
row_of-Fills [] f h = tt
row_of-Fills ((g, b) ∷ rows) f h = elim (Bool-cases (f == g)) [
  | inl same ↦ rw (same, (==_iff f g).0 same) h.0
  | inr differs ↦ rw differs (row_of-Fills rows f h.1)
]

fills : All Fills sample_bits
unfolding shift_of
fills = ground arith

-- A sample of a format with 10, 12 or 14 bits is shifted to the top of its 16-bit word: by the number
-- of bits that it lacks, and without losing one of its own.
pub shift_of-sample_bits_of :
    (f b x : ℕ)
    → sample_bits_of f ≡ some b
    → x < 2 ^ b
    → (shift_of f ≡ some (16 - b)) × (shift_word (16 - b) x ≡ x * 2 ^ (16 - b))
shift_of-sample_bits_of f b x e h =
    let p : Fills (f, some b) =
      subst (λ (o : Option ℕ). Fills (f, o)) e (row_of-Fills sample_bits f fills) in
    (
      p.0,
      elim (p.1) [
        | inl ten ↦ rw ten (omega (arith, subst (λ (k : ℕ). x < 2 ^ k) ten h))
        | inr (inl twelve) ↦ rw twelve (omega (arith, subst (λ (k : ℕ). x < 2 ^ k) twelve h))
        | inr (inr fourteen) ↦ rw fourteen (omega (arith, subst (λ (k : ℕ). x < 2 ^ k) fourteen h))
      ],
    )
