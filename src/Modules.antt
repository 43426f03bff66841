-- ===== src/Modules.antt =====
-- core/src/modules: the `process` functions of ConstantSource.hpp, AdditionModule.hpp, SumAggregator.hpp
-- and PrintSink.hpp. A module is its members; `plus` is the `+` of the template arguments, with the
-- conversion to the output's type; `shown` is what the logger makes of a value, and the state of the sink's
-- command is the lines of the logger.
pub mod Sums
use pipeline_tools.Prelude.{
  ℕ, ◌^◌, ◌<◌, ◌≤◌, Bool, ◌&&◌, Option, some, List, [], ◌∷◌, ◌++◌, ltb, leb, if◌then◌else◌,
}
use pipeline_tools.Prelude.Int.{ℤ, pos, pos_part, neg_part, ◌+ℤ◌}
use pipeline_tools.Prelude.Outcome.{Outcome, done, undefined, Cmd, pure, modify, ◌>>=◌}

pub record ConstantSource (T : Type 0) : Type 0 where
  pub constant : T

unfoldable pub constant_process : {T : Type 0} → ConstantSource T → Option T
constant_process m = some m.constant

pub record AdditionModule (Add : Type 0) : Type 0 where
  pub addition : Add

unfoldable pub addition_process :
    {In Add Out : Type 0} (plus : In → Add → Out) → AdditionModule Add → In → Option Out
addition_process plus m input = some (plus input m.addition)

-- Whether a number fits an `int`.
abbrev pub fits_int : ℤ → Bool
fits_int i = ltb (pos_part i) (2 ^ 31) && leb (neg_part i) (2 ^ 31)

-- `for (auto v : inputs) sum += v`; a sum that does not fit an `int` is undefined.
unfoldable pub sum_loop : {S : Type 0} → List ℤ → ℤ → Cmd S ℤ
sum_loop [] sum = pure sum
sum_loop (v ∷ inputs) sum = elim (fits_int (sum +ℤ v)) [
  | Bool.true ↦ sum_loop inputs (sum +ℤ v)
  | Bool.false ↦ λ _. undefined
]

unfoldable pub sum_process : {S : Type 0} → List ℤ → Cmd S (Option ℤ)
unfolding sum_loop
sum_process inputs = do sum ← sum_loop inputs (pos 0); pure (some sum)

unfoldable pub print_process :
    {In : Type 0} (shown : In → List ℕ) → In → Cmd (List (List ℕ)) (Unit {0})
print_process shown input = modify (λ lines. lines ++ shown input ∷ [])
