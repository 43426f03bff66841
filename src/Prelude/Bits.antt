-- ===== src/Prelude/Bits.antt =====
-- Sets of small numbers as the bits of a word.
use Prim.Native.Nat.{
  ℕ, zero, suc, ◌+◌, ◌-◌, ◌*◌, ◌/◌, ◌%◌, ◌^◌, ◌≤◌, ◌<◌, min, max, digits, bitwise, bit_and, bit_or,
  bit_and-bitwise, bit_or-bitwise,
}
use native.Mathlib.Omega.{arith}
use native.Mathlib.Nat.{pow-suc}
use mathlib.Core.Path.{◌≡◌, refl, ap}
use mathlib.Core.Bool.{Bool, true, false, ◌&&◌}
use pipeline_tools.Prelude.Tests.{◌==◌, if◌then◌else◌}

module _ (z : ℕ → ℕ) (f : ℕ → ℕ → ℕ) where
  -- More fuel than there are digits changes nothing.
  spare_fuel :
      (fuel more a b : ℕ) → a ≤ fuel → fuel ≤ more → digits z f more a b ≡ digits z f fuel a b
  spare_fuel zero zero zero b h k = refl
  spare_fuel zero (suc more) zero b h k = refl
  spare_fuel zero more (suc a) b h k = absurd (omega arith)
  spare_fuel (suc fuel) zero a b h k = absurd (omega arith)
  spare_fuel (suc fuel) (suc more) zero b h k = refl
  spare_fuel (suc fuel) (suc more) (suc a) b h k =
      ap (λ (d : ℕ). d * 2 + f (suc a % 2) (b % 2))
        (spare_fuel fuel more (suc a / 2) (b / 2) (omega arith) (omega arith))

  lowest_digit :
      (a b : ℕ)
      → bitwise z f (suc a) b ≡ bitwise z f (suc a / 2) (b / 2) * 2 + f (suc a % 2) (b % 2)
  lowest_digit a b =
      ap (λ (d : ℕ). d * 2 + f (suc a % 2) (b % 2))
        (spare_fuel (suc a / 2) a (suc a / 2) (b / 2) (omega arith) (omega arith))

bit_and-halves : (a b : ℕ) → bit_and a b ≡ bit_and (a / 2) (b / 2) * 2 + min (a % 2) (b % 2)
bit_and-halves zero b = simp bit_and-bitwise (omega arith)
bit_and-halves (suc a) b = simp bit_and-bitwise (lowest_digit (λ _. 0) min a b)

bit_or-halves : (a b : ℕ) → bit_or a b ≡ bit_or (a / 2) (b / 2) * 2 + max (a % 2) (b % 2)
bit_or-halves zero b = simp bit_or-bitwise (omega arith)
bit_or-halves (suc a) b = simp bit_or-bitwise (lowest_digit (λ y. y) max a b)

-- The word whose bits below `n` say which of these numbers are in the set.
abbrev pub mask : ℕ → (ℕ → Bool) → ℕ
mask zero d = 0
mask (suc n) d = 2 * mask n (λ i. d (suc i)) + (if d 0 then 1 else 0)

abbrev pub include : (ℕ → Bool) → ℕ → ℕ → Bool
include d i j = if i == j then true else d j

abbrev pub all_below : ℕ → (ℕ → Bool) → Bool
all_below zero d = true
all_below (suc n) d = d 0 && all_below n (λ i. d (suc i))

mask-bit_and_none : (n : ℕ) (d : ℕ → Bool) → bit_and (mask n d) 0 ≡ 0
mask-bit_and_none zero d = refl
mask-bit_and_none (suc n) d =
    ground (arith, bit_and-halves (mask (suc n) d) 0, mask-bit_and_none n (λ i. d (suc i)))

mask-bit_or_none : (n : ℕ) (d : ℕ → Bool) → bit_or (mask n d) 0 ≡ mask n d
mask-bit_or_none zero d = refl
mask-bit_or_none (suc n) d =
    ground (arith, bit_or-halves (mask (suc n) d) 0, mask-bit_or_none n (λ i. d (suc i)))

halves : (n : ℕ) (d : ℕ → Bool) → mask (suc n) d / 2 ≡ mask n (λ i. d (suc i))
halves n d = ground arith

pub mask-bit_and :
    (n : ℕ) (d : ℕ → Bool) (i : ℕ) → i < n → bit_and (mask n d) (2 ^ i) ≡ (if d i then 2 ^ i else 0)
mask-bit_and zero d i h = absurd (omega arith)
mask-bit_and (suc n) d zero h =
    ground
      (arith, bit_and-halves (mask (suc n) d) 1, halves n d, mask-bit_and_none n (λ i. d (suc i)))
mask-bit_and (suc n) d (suc i) h = ground (
  arith,
  bit_and-halves (mask (suc n) d) (2 ^ suc i),
  halves n d,
  pow-suc 2 i,
  mask-bit_and n (λ j. d (suc j)) i (omega arith),
)

mask-same : (n : ℕ) (d e : ℕ → Bool) → ((i : ℕ) → d i ≡ e i) → mask n d ≡ mask n e
mask-same zero d e h = refl
mask-same (suc n) d e h =
    ground (arith, h 0, mask-same n (λ i. d (suc i)) (λ i. e (suc i)) (λ i. h (suc i)))

include-suc : (d : ℕ → Bool) (i j : ℕ) → include d (suc i) (suc j) ≡ include (λ k. d (suc k)) i j
include-suc d i j = ground arith

pub mask-include :
    (n : ℕ) (d : ℕ → Bool) (i : ℕ) → i < n → bit_or (mask n d) (2 ^ i) ≡ mask n (include d i)
mask-include zero d i h = absurd (omega arith)
mask-include (suc n) d zero h =
    ground
      (arith, bit_or-halves (mask (suc n) d) 1, halves n d, mask-bit_or_none n (λ i. d (suc i)))
mask-include (suc n) d (suc i) h = ground (
  arith,
  bit_or-halves (mask (suc n) d) (2 ^ suc i),
  halves n d,
  pow-suc 2 i,
  mask-include n (λ j. d (suc j)) i (omega arith),
  mask-same n (λ j. include d (suc i) (suc j)) (include (λ k. d (suc k)) i) (include-suc d i),
)

pub mask-below : (n : ℕ) (d : ℕ → Bool) → mask n d < 2 ^ n
mask-below zero d = omega arith
mask-below (suc n) d = ground (arith, pow-suc 2 n, mask-below n (λ i. d (suc i)))

pub mask-full : (n : ℕ) (d : ℕ → Bool) → (mask n d == 2 ^ n - 1) ≡ all_below n d
mask-full zero d = refl
mask-full (suc n) d =
    ground (arith, pow-suc 2 n, mask-below n (λ i. d (suc i)), mask-full n (λ i. d (suc i)))

pub mask-none : (n : ℕ) → mask n (λ _. false) ≡ 0
mask-none zero = refl
mask-none (suc n) = ground (arith, mask-none n)
