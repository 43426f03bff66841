-- ===== src/Prelude/Store.antt =====
-- Numbered variables, and sums over the first of them.
use Prim.Native.Nat.{ℕ, zero, suc, ◌+◌, ◌≤◌, ◌<◌}
use mathlib.Core.Path.{◌≡◌, refl, ap}
use native.Mathlib.Omega.{arith}
use mathlib.Core.Logic.{inl, inr}
use pipeline_tools.Prelude.Tests.{◌==◌, if◌then◌else◌, lt_or_le}

module _ {ℓ} {A : Type ℓ} where
  unfoldable pub update : (ℕ → A) → ℕ → A → ℕ → A
  update s i v j = if i == j then v else s j

  unfoldable pub tally : ℕ → (A → ℕ) → (ℕ → A) → ℕ
  tally zero f s = 0
  tally (suc n) f s = tally n f s + f (s n)

  pub update_self : (s : ℕ → A) (i : ℕ) (v : A) → update s i v i ≡ v
  unfolding update
  update_self s i v = ground arith

  tally-update_out :
      (n i : ℕ) (f : A → ℕ) (s : ℕ → A) (v : A) → n ≤ i → tally n f (update s i v) ≡ tally n f s
  unfolding tally update
  tally-update_out zero i f s v h = refl
  tally-update_out (suc n) i f s v h = ground (arith, tally-update_out n i f s v)

  -- A write changes the sum by what it changes at its own place.
  pub tally-update :
      (n i : ℕ) (f : A → ℕ) (s : ℕ → A) (v : A)
      → i < n
      → tally n f (update s i v) + f (s i) ≡ tally n f s + f v
  unfolding tally update
  tally-update zero i f s v h = elim h [ ]
  tally-update (suc n) i f s v h =
      ground (arith, tally-update n i f s v, tally-update_out n i f s v)

  pub tally-one : (n i : ℕ) (f : A → ℕ) (s : ℕ → A) → i < n → f (s i) ≤ tally n f s
  unfolding tally
  tally-one zero i f s h = elim h [ ]
  tally-one (suc n) i f s h = elim (lt_or_le i n) [
    | inl early ↦ omega (arith, tally-one n i f s early)
    | inr late ↦ let e : i ≡ n = omega arith in rw e (omega arith)
  ]

  pub tally-pair :
      (n i j : ℕ) (f : A → ℕ) (s : ℕ → A) → i < j → j < n → f (s i) + f (s j) ≤ tally n f s
  unfolding tally
  tally-pair zero i j f s h k = elim k [ ]
  tally-pair (suc n) i j f s h k = elim (lt_or_le j n) [
    | inl early ↦ omega (arith, tally-pair n i j f s h early)
    | inr late ↦
        let e : j ≡ n = omega arith in rw e (omega (arith, tally-one n i f s (omega arith)))
  ]

  -- Two writes, the second at a place that the first left as it was.
  pub tally-update_two :
      (n i j : ℕ) (f : A → ℕ) (s : ℕ → A) (a b : A)
      → update s i a j ≡ s j
      → i < n
      → j < n
      → tally n f (update (update s i a) j b) + f (s j) + f (s i) ≡ tally n f s + f a + f b
  tally-update_two n i j f s a b same hi hj =
      omega (arith, tally-update n j f (update s i a) b hj, ap f same, tally-update n i f s a hi)
