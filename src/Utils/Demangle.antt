-- ===== src/Utils/Demangle.antt =====
-- core/src/utils/misc_utils.cpp: `demangle`. `cxa_demangle` is `abi::__cxa_demangle` on a name: whether its
-- status is 0, and what it returns, `none` for a null pointer.
use pipeline_tools.Prelude.{ℕ, Bool, Option, none, some, List, if◌then◌else◌}

unfoldable pub demangle : (cxa_demangle : List ℕ → Bool × Option (List ℕ)) → List ℕ → List ℕ
demangle cxa_demangle name =
    let (fine, demangled) = cxa_demangle name in
    elim demangled [ none ↦ name | some text ↦ if fine then text else name ]
