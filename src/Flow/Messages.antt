-- ===== src/Flow/Messages.antt =====
-- The messages of the exceptions of core/src/flow/exceptions and utils/exceptions/bad_any_cast_with_info.hpp.
-- A `type_info` is its mangled name; `cxa_demangle` is the ABI library's call.
use pipeline_tools.Prelude.{ℕ, Bool, Option, List, ◌++◌, codes}
use pipeline_tools.Utils.Demangle.{demangle}

-- `unordered_sources::build_msg`.
unfoldable pub unordered_sources_msg : List ℕ
unordered_sources_msg = codes "unordered_sources: Source added after module/aggregator/sink"

module _ (cxa_demangle : List ℕ → Bool × Option (List ℕ)) where
  -- `unknown_flow_object::build_msg`.
  unfoldable pub unknown_flow_object_msg : List ℕ → List ℕ
  unfolding demangle
  unknown_flow_object_msg flow_obj = codes "unknown_flow_object: " ++ demangle cxa_demangle flow_obj

  -- `bad_any_cast_with_info::what`.
  unfoldable pub bad_any_cast_msg : (from to : List ℕ) → List ℕ
  unfolding demangle
  bad_any_cast_msg from to =
      codes "bad_any_cast: Cannot cast from type ["
      ++ demangle cxa_demangle from
      ++ codes "] to type ["
      ++ demangle cxa_demangle to
      ++ codes "]"
