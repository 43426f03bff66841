-- ===== src/Threads/CpuManager/Loops.antt =====
-- The two loops of `allocate`: what they hand out and what they leave.
use native.Mathlib.Numerals.{add-one}
use mathlib.Core.List.{reverse-cons}
use pipeline_tools.Prelude.{
  ℕ, zero, suc, ◌+◌, ◌≤◌, ◌<◌, ◌≡◌, refl, sym, ap, ◌∙◌, ◌⊎◌, inl, inr, none, some, List, [], ◌∷◌,
  ◌++◌, map, reverse, append-nil, append_assoc, arith, length, length-append, get_elem?, take, drop,
}
use pipeline_tools.Prelude.Int.{ℤ}
use pipeline_tools.Prelude.Outcome.{Outcome}
use pipeline_tools.Threads.Policy.{AffinityType, normal, Core, core}
use pipeline_tools.Threads.CpuManager.{CpuManager, back, pop_back, copy_cores, take_cores}

module _ {ℓ} {A : Type ℓ} where
  -- A list is empty or ends in what `back` returns.
  pub back-cases :
      (xs : List A)
      → ((xs ≡ []) × (back xs ≡ none))
        ⊎ ((c : A) × (back xs ≡ some c) × (xs ≡ pop_back xs ++ c ∷ []))
  unfolding back pop_back
  back-cases [] = inl (refl, refl)
  back-cases (x ∷ []) = inr (x, refl, refl)
  back-cases (x ∷ y ∷ ys) = elim (back-cases (y ∷ ys)) [
    | inl (e, _) ↦ cc
    | inr (c, b, e) ↦ inr (c, b, ap (◌∷◌ x) e)
  ]

-- What a loop over the back of a pool returns: the cores `taken`, last first, and the pool `rest`.
pub record Taken (n : ℕ) (pool taken rest : List ℤ) : Type 0 where
  pub whole : pool ≡ rest ++ reverse taken
  pub size : length taken ≡ n

Taken-cons :
    (n : ℕ) (pool left taken rest : List ℤ) (c : ℤ)
    → pool ≡ left ++ c ∷ []
    → Taken n left taken rest
    → Taken (suc n) pool (c ∷ taken) rest
Taken-cons n pool left taken rest c e t = record {
  whole = rw (reverse-cons c taken, ← append_assoc rest (reverse taken) (c ∷ []), ← t.whole) e;
  size = ap suc t.size;
}

pub take_cores-Taken :
    (a : AffinityType) (n : ℕ) (pool : List ℤ) (allocated : List Core) (m : CpuManager)
    → n ≤ length pool
    → (taken rest : List ℤ) × (take_cores a n pool allocated m
        ≡ Outcome.done (allocated ++ map (core a) taken, rest) m)
      × Taken n pool taken rest
unfolding take_cores
take_cores-Taken a zero pool allocated m h =
    ([], pool, rw append-nil, record { whole = sym (append-nil pool); size = refl })
take_cores-Taken a (suc n) pool allocated m h = elim (back-cases pool) [
  | inl (e, _) ↦ absurd (omega (arith, ap length e))
  | inr (c, b, e) ↦
      let (taken, rest, run, t) =
        take_cores-Taken a n (pop_back pool) (allocated ++ core a c ∷ []) m
          (omega (arith, ap length e, length-append (pop_back pool) (c ∷ []))) in
      (
        c ∷ taken,
        rest,
        rw (b, take_cores) (run ∙ ap (λ l. Outcome.done (l, rest) m) (append_assoc allocated _ _)),
        Taken-cons n pool (pop_back pool) taken rest c e t,
      )
]

drop-get :
    (i : ℕ) (pool : List ℤ)
    → i < length pool
    → (c : ℤ) × (get_elem? pool i ≡ some c) × (drop i pool ≡ c ∷ drop (suc i) pool)
drop-get i [] h = elim h [ ]
drop-get zero (x ∷ xs) h = (x, refl, refl)
drop-get (suc i) (x ∷ xs) h = drop-get i xs (omega arith)

pub copy_cores_lem :
    (n i : ℕ) (pool : List ℤ) (allocated : List Core) (m : CpuManager)
    → i + n ≤ length pool
    → copy_cores n i pool allocated m
      ≡ Outcome.done (allocated ++ map (core normal) (take n (drop i pool))) m
unfolding copy_cores
copy_cores_lem zero i pool allocated m h = rw append-nil
copy_cores_lem (suc n) i pool allocated m h =
    let (c, got, split) = drop-get i pool (omega arith) in
    rw (got, copy_cores, split, ← add-one i)
      (copy_cores_lem n (i + 1) pool (allocated ++ core normal c ∷ []) m (omega arith)
        ∙ ap (λ l. Outcome.done l m) (append_assoc allocated _ _))
