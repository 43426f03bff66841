-- ===== src/Threads/CpuManager/ParseCpus.antt =====
-- `CPUManager::parse_cpus`: how the pools come to be. The two files under /sys are arguments: the
-- first line of each, which is empty where the file has none, or `none` where the file cannot be opened.
-- `std::getline` on a stream that is not open leaves the string as it was; on an open one it erases the
-- string first.
use mathlib.Core.List.{mem-cons_self, not-mem-nil, Mem, mem-cons}
use mathlib.Core.List.Perm
use mathlib.Core.Logic.Or
use pipeline_tools.Prelude.{
  Option-cases, ℕ, ◌≡◌, refl, Option, none, some, List, [], ◌∷◌, ◌++◌, Perm, arith, if◌then◌else◌,
  Bool-cases, inl, inr,
}
use pipeline_tools.Prelude.Int.{ℤ, ◌==ℤ◌, ==ℤ_iff}
use pipeline_tools.Prelude.Outcome.{
  Outcome, done, thrown, blocked, undefined, out_of_fuel, terminated, pure, throw, ◌>>=◌, ◌>>◌,
  modify,
}
use pipeline_tools.Utils.Ranges.{parse_numeric_ranges}
use pipeline_tools.Threads.CpuManager.{CpuManager, M}

-- A call of `parse_numeric_ranges` from a method of the manager.
abbrev lift : Outcome (List ℤ) (Unit {0}) → M (List ℤ)
lift (done _ l) = pure l
lift (thrown e l) = throw e
lift blocked = λ _. blocked
lift undefined = λ _. undefined
lift out_of_fuel = λ _. out_of_fuel
lift terminated = λ _. terminated

-- `pool.erase(std::ranges::find(pool, cpu))`; `none` where the id is not found: `erase(end())` is
-- undefined.
unfoldable pub erase : ℤ → List ℤ → Option (List ℤ)
erase cpu [] = none
erase cpu (x ∷ xs) =
    if x ==ℤ cpu then some xs else elim (erase cpu xs) [ none ↦ none | some ys ↦ some (x ∷ ys) ]

unfoldable pub erase_all : List ℤ → M (Unit {0})
unfolding erase
erase_all [] m = done tt m
erase_all (cpu ∷ cpus) m = elim (erase cpu m.pinned_core_pool) [
  | none ↦ undefined
  | some pool ↦ erase_all cpus (record m { pinned_core_pool = pool })
]

abbrev pub getline : Option (List ℕ) → List ℕ → List ℕ
getline none old = old
getline (some line) old = line

unfoldable pub parse_cpus : (online_file isolated_file : Option (List ℕ)) → M (Unit {0})
unfolding erase_all
parse_cpus online_file isolated_file = do
  let online_line = getline online_file []
  pool ← lift (parse_numeric_ranges online_line)
  modify (λ m. record m { pinned_core_pool = pool })
  online ← lift (parse_numeric_ranges online_line)
  modify (λ m. record m { online_cores = online })
  isols ← lift (parse_numeric_ranges (getline isolated_file online_line))
  modify (λ m. record m { isol_core_pool = isols })
  erase_all isols

erase-some : (cpu : ℤ) (xs ys : List ℤ) → erase cpu xs ≡ some ys → Perm xs (cpu ∷ ys)
unfolding erase
erase-some cpu [] ys e = absurd (cc)
erase-some cpu (x ∷ xs) ys e = elim (Bool-cases (x ==ℤ cpu)) [
  | inl hit ↦
      let same : x ≡ cpu = (==ℤ_iff x cpu).0 hit in
      let rest : xs ≡ ys = ground arith in rw (same, rest) (Perm.refl (cpu ∷ ys))
  | inr miss ↦ elim (Option-cases (erase cpu xs)) [
    | inl missing ↦ absurd (ground arith)
    | inr (zs, found) ↦
        let split : ys ≡ x ∷ zs = ground arith in
        rw split (Perm.trans (Perm.cons x (erase-some cpu xs zs found)) (Perm.swap cpu x zs))
  ]
]

erase-none : (cpu : ℤ) (xs : List ℤ) → erase cpu xs ≡ none → ¬ Mem cpu xs
unfolding erase
erase-none cpu [] e h = not-mem-nil h
erase-none cpu (x ∷ xs) e h =
    Or.elim (λ a b. absurd a) (mem-cons.0 h) (λ same. absurd (ground (arith, ==ℤ_iff x cpu)))
      (λ later. erase-none cpu xs (ground arith) later)

erase_all-lem :
    (isols rest : List ℤ) (m : CpuManager)
    → Perm m.pinned_core_pool (isols ++ rest)
    → (pool : List ℤ) × (erase_all isols m ≡ done tt (record m { pinned_core_pool = pool }))
      × Perm pool rest
unfolding erase_all
erase_all-lem [] rest m h = (m.pinned_core_pool, refl, h)
erase_all-lem (i ∷ is) rest m h = elim (Option-cases (erase i m.pinned_core_pool)) [
  | inl missing ↦
      absurd (erase-none i m.pinned_core_pool missing ((Perm.mem_iff h).1 mem-cons_self))
  | inr (zs, found) ↦
      let m' : CpuManager = record m { pinned_core_pool = zs } in
      let (pool, run, left) =
        erase_all-lem is rest m'
          (Perm.cons_inv (Perm.trans (Perm.symm (erase-some i m.pinned_core_pool zs found)) h)) in
      (pool, rw (found, erase_all) run, left)
]

-- If both files are there and parse, and the isolated cores are among the online ones, start-up ends
-- with the isolated cores in their pool, all others in the pinned pool, and the list of online cores.
pub parse_cpus-lem :
    (online_line isolated_line : List ℕ) (m : CpuManager) (online isols rest : List ℤ)
    → parse_numeric_ranges online_line ≡ done tt online
    → parse_numeric_ranges isolated_line ≡ done tt isols
    → Perm online (isols ++ rest)
    → (pool : List ℤ) × (parse_cpus (some online_line) (some isolated_line) m
        ≡ done tt
            (record m { pinned_core_pool = pool; isol_core_pool = isols; online_cores = online }))
      × Perm pool rest
unfolding parse_cpus
parse_cpus-lem a b m online isols rest e k h =
    let m' : CpuManager = record m {
      pinned_core_pool = online;
      isol_core_pool = isols;
      online_cores = online;
    } in
    let (pool, run, left) = erase_all-lem isols rest m' h in (pool, rw (e, k) run, left)

-- Where no core is isolated, every online core is in the pinned pool, in the order of the file.
pub parse_cpus-none_isolated :
    (online_line : List ℕ) (m : CpuManager) (online : List ℤ)
    → parse_numeric_ranges online_line ≡ done tt online
    → parse_cpus (some online_line) (some []) m
      ≡ done tt (record m { pinned_core_pool = online; isol_core_pool = []; online_cores = online })
unfolding parse_cpus parse_numeric_ranges
parse_cpus-none_isolated a m online e = rw e
