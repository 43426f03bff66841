-- ===== src/Utils/Logging.antt =====
-- core/src/utils/logging/logger.cpp: the path of the logger's configuration file. `env` is `getenv`, and
-- `init` is `DawgLog::Logger::init` on the configuration at a path.
use pipeline_tools.Prelude.{ℕ, Option, none, some, List, ◌++◌, codes}
use pipeline_tools.Prelude.Outcome.{runtime_error, Cmd, pure, throw, ◌>>=◌}

module _ {S : Type 0} (env : List ℕ → Option (List ℕ)) where
  unfoldable pub config_path : Cmd S (List ℕ)
  config_path = elim (env (codes "DAWGLOGGER_CONFIGURATION_PATH")) [
    | some path ↦ pure path
    | none ↦ elim (env (codes "PWD")) [
      | some pwd ↦ pure (pwd ++ codes "/config/dawglogger.json")
      | none ↦ throw runtime_error
    ]
  ]

  unfoldable pub initialize_dawglogger : (List ℕ → Cmd S (Unit {0})) → Cmd S (Unit {0})
  unfolding config_path
  initialize_dawglogger init = do path ← config_path; init path
