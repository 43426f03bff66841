-- ===== src/Rmq/Serialization.antt =====
-- core/src/utils/ipc/rmq/Concepts.h: the types that can be sent, and the branches of `if constexpr` in
-- `publish` and `consume` that turn a value into a message's body and back. `dump` and `parse` are those
-- of `nlohmann::json`; `parse` throws on a text that is none.
use std.Path.{transport, transport⁻¹}
use pipeline_tools.Prelude.{ℕ, ◌≡◌, Option, none, some, List, codes}
use pipeline_tools.Prelude.Outcome.{Cmd, ◌>>=◌, pure, throw, library_error}
use pipeline_tools.Rmq.{Message}

-- A type with `serialize` and a constructor, on JSON or on texts; JSON itself; or texts themselves.
pub data RmqSerialized (Json T : Type 0) : Type 1 where
  json_serialized : (serialize : T → Json) (make : Json → T) → RmqSerialized Json T
  string_serialized : (serialize : T → List ℕ) (make : List ℕ → T) → RmqSerialized Json T
  same_as_json : T ≡ Json → RmqSerialized Json T
  same_as_string : T ≡ List ℕ → RmqSerialized Json T

module _ {Json T : Type 0} (dump : Json → List ℕ) where
  unfoldable pub message : RmqSerialized Json T → T → Message
  message (json_serialized serialize make) value = record {
    content_type = some (codes "application/json");
    body = dump (serialize value);
  }
  message (string_serialized serialize make) value = record {
    content_type = none;
    body = serialize value;
  }
  message (same_as_json e) value = record {
    content_type = some (codes "application/json");
    body = dump (transport e value);
  }
  message (same_as_string e) value = record { content_type = none; body = transport e value }

module _ {Json S : Type 0} (parse : List ℕ → Option Json) where
  abbrev pub parsed : List ℕ → Cmd S Json
  parsed text = elim (parse text) [ none ↦ throw library_error | some j ↦ pure j ]

  -- What `consume` makes of a body.
  unfoldable pub from_body : {T : Type 0} → RmqSerialized Json T → List ℕ → Cmd S T
  from_body (json_serialized serialize make) body = do j ← parsed body; pure (make j)
  from_body (string_serialized serialize make) body = pure (make body)
  from_body (same_as_json e) body = do j ← parsed body; pure (transport⁻¹ e j)
  from_body (same_as_string e) body = pure (transport⁻¹ e body)
