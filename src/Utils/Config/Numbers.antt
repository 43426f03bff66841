-- ===== src/Utils/Config/Numbers.antt =====
-- The integers that `convert` reads: digits, with a minus where the type is signed.
use native.Mathlib.Nat.{one-le-pow, mod-eq_of_lt, pow-le-pow_right}
use pipeline_tools.Prelude.{
  ℕ, zero, suc, ◌%◌, ◌^◌, ◌≤◌, ◌<◌, ◌≡◌, refl, Bool, true, false, List, ◌∷◌, arith, if◌then◌else◌,
}
use pipeline_tools.Prelude.Int.{ℤ, pos, negsuc, sub_ℕ}
use pipeline_tools.Prelude.Outcome.{done, Cmd}
use pipeline_tools.Utils.Ranges.{stoll}
use pipeline_tools.Utils.Ranges.RoundTrip.{value_from, ascii, AreDigits, magnitude-ascii}
use pipeline_tools.Utils.Config.{
  stoull, OutType, text, floating, boolean, pointer, signed, unsigned, integer, to_signed,
  to_unsigned, convert,
}

-- The text of a number, with a minus before it or without one, and the integer that it means.
abbrev pub spelled : (negative : Bool) → List ℕ → List ℕ
spelled false ds = ascii ds
spelled true ds = b'-' ∷ ascii ds

abbrev pub meant : (negative : Bool) → ℕ → ℤ
meant false n = pos n
meant true n = sub_ℕ 0 n

-- The type has the number: an integer of at most 64 bits, from -2^n to 2^n - 1 where it is signed and
-- has n + 1 bits.
abbrev pub Has : OutType → (negative : Bool) → ℕ → Type 0
Has (signed w) false n = (w < 64) × (n < 2 ^ w)
Has (signed w) true n = (w < 64) × (n ≤ 2 ^ w)
Has (unsigned w) false n = (w < 64) × (n < 2 ^ suc w)
Has (unsigned w) true n = ⊥
Has text b n = ⊥
Has floating b n = ⊥
Has boolean b n = ⊥
Has pointer b n = ⊥

power_le : (w k : ℕ) → w ≤ k → 2 ^ w ≤ 2 ^ k
power_le w k h = pow-le-pow_right (omega arith) h

to_signed_pos : (w n : ℕ) → n < 2 ^ w → to_signed w (pos n) ≡ pos n
unfolding to_signed
to_signed_pos w n h =
    let wide : 2 ^ w ≤ 2 ^ suc w = power_le w (suc w) (omega arith) in
    let m : n % 2 ^ suc w ≡ n = mod-eq_of_lt (omega (arith, wide)) in ground (arith, m)

to_signed_negsuc : (w m : ℕ) → m < 2 ^ w → to_signed w (negsuc m) ≡ negsuc m
unfolding to_signed
to_signed_negsuc w m h =
    let wide : 2 ^ w ≤ 2 ^ suc w = power_le w (suc w) (omega arith) in
    let e : m % 2 ^ suc w ≡ m = mod-eq_of_lt (omega (arith, wide)) in ground (arith, e)

to_signed_neg : (w n : ℕ) → n ≤ 2 ^ w → to_signed w (sub_ℕ 0 n) ≡ sub_ℕ 0 n
to_signed_neg w zero h = to_signed_pos w 0 (one-le-pow w 2 (omega arith))
to_signed_neg w (suc m) h =
    let e : sub_ℕ 0 (suc m) ≡ negsuc m = ground arith in rw e (to_signed_negsuc w m (omega arith))

stoll-spelled :
    {S : Type 0} (b : Bool) (d : ℕ) (ds : List ℕ) (s : S)
    → AreDigits (d ∷ ds)
    → (if b then value_from 0 (d ∷ ds) ≤ 2 ^ 63 else value_from 0 (d ∷ ds) < 2 ^ 63)
    → stoll (spelled b (d ∷ ds)) s ≡ done (meant b (value_from 0 (d ∷ ds))) s
unfolding stoll
stoll-spelled false d ds s h k = ground (arith, magnitude-ascii 0 (d ∷ ds) h)
stoll-spelled true d ds s h k = ground (arith, magnitude-ascii 0 (d ∷ ds) h)

stoull-spelled :
    {S : Type 0} (d : ℕ) (ds : List ℕ) (s : S)
    → AreDigits (d ∷ ds)
    → value_from 0 (d ∷ ds) < 2 ^ 64
    → stoull (ascii (d ∷ ds)) s ≡ done (value_from 0 (d ∷ ds)) s
unfolding stoull
stoull-spelled d ds s h k = ground (arith, magnitude-ascii 0 (d ∷ ds) h)

module _ {Real S : Type 0} (stod : List ℕ → Cmd S Real) where
  -- The digits of a number, with a minus before them or without one, are converted to that number by
  -- every integer type of at most 64 bits that has it, the least and the greatest value of the type
  -- included.
  pub convert-spelled :
      (t : OutType) (negative : Bool) (d : ℕ) (ds : List ℕ) (s : S)
      → AreDigits (d ∷ ds)
      → Has t negative (value_from 0 (d ∷ ds))
      → convert stod t (spelled negative (d ∷ ds)) s
        ≡ done (integer (meant negative (value_from 0 (d ∷ ds)))) s
  unfolding convert to_unsigned
  convert-spelled (signed w) false d ds s h (narrow, k) =
      let most = power_le w 63 (omega arith) in
      rw (convert, stoll-spelled false d ds s h (omega (arith, most)), to_signed_pos w _ k) refl
  convert-spelled (signed w) true d ds s h (narrow, k) =
      let most = power_le w 63 (omega arith) in
      rw (convert, stoll-spelled true d ds s h (omega (arith, most)), to_signed_neg w _ k) refl
  convert-spelled (unsigned w) false d ds s h (narrow, k) =
      let most = power_le (suc w) 64 (omega arith) in
      rw (convert, stoull-spelled d ds s h (omega (arith, most)), mod-eq_of_lt k) refl
  convert-spelled (unsigned w) true d ds s h k = absurd k
  convert-spelled text b d ds s h k = absurd k
  convert-spelled floating b d ds s h k = absurd k
  convert-spelled boolean b d ds s h k = absurd k
  convert-spelled pointer b d ds s h k = absurd k
