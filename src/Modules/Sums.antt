-- ===== src/Modules/Sums.antt =====
-- What an aggregator that adds up makes of the values of one round.
use pipeline_tools.Prelude.{ℕ, ◌+◌, ◌^◌, ◌<◌, ◌≡◌, ap, ◌∙◌, true, some, List, [], ◌∷◌, arith}
use pipeline_tools.Prelude.Int.{ℤ, pos, ◌+ℤ◌}
use pipeline_tools.Prelude.Outcome.{done}
use pipeline_tools.Modules.{fits_int, sum_loop, sum_process}

-- The inputs as natural numbers, and their sum.
abbrev pub ints : List ℕ → List ℤ
ints [] = []
ints (n ∷ ns) = pos n ∷ ints ns

abbrev pub total : List ℕ → ℕ
total [] = 0
total (n ∷ ns) = n + total ns

+ℤ-pos : (a b : ℕ) → pos a +ℤ pos b ≡ pos (a + b)
unfolding ◌+ℤ◌
+ℤ-pos a b = ground arith

sum_loop-total :
    {S : Type 0} (ns : List ℕ) (a : ℕ) (s : S)
    → a + total ns < 2 ^ 31
    → sum_loop (ints ns) (pos a) s ≡ done (pos (a + total ns)) s
unfolding sum_loop
sum_loop-total [] a s h = ap (λ n. done (pos n) s) (omega arith)
sum_loop-total (n ∷ ns) a s h =
    let fits : fits_int (pos (a + n)) ≡ true = ground arith in
    rw (sum_loop, +ℤ-pos a n, fits, +ℤ-pos a n)
      (sum_loop-total ns (a + n) s (omega arith) ∙ ap (λ k. done (pos k) s) (omega arith))

-- For natural numbers whose sum fits an `int`, `process` returns the sum.
pub sum_process-total :
    {S : Type 0} (ns : List ℕ) (s : S)
    → total ns < 2 ^ 31
    → sum_process (ints ns) s ≡ done (some (pos (total ns))) s
unfolding sum_process
sum_process-total ns s h =
    rw (sum_loop-total ns 0 s (omega arith)) (ap (λ k. done (some (pos k)) s) (omega arith))
