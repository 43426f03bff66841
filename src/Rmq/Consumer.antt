-- ===== src/Rmq/Consumer.antt =====
-- Consumer.h and Consumer.tpp, and RMQSource.tpp, whose block consumes. The destructor calls `stop`.
pub mod Consumes
use pipeline_tools.Prelude.{ℕ, Bool, true, false, Option, none, some, List}
use pipeline_tools.Prelude.Outcome.{
  Outcome, done, thrown, blocked, undefined, out_of_fuel, terminated, Cmd, pure, ◌>>=◌, ◌>>◌,
}
use pipeline_tools.Rmq.{RmqOptions, default_options, Amqp, mq_entity}
use pipeline_tools.Rmq.Serialization.{RmqSerialized, from_body}
use pipeline_tools.Rmq.Publisher.{ensure_queue}

-- `channel` is a shared pointer; `none` is null.
pub record Consumer : Type 0 where
  pub channel : Option ℕ
  pub consumer_tag : List ℕ
  pub options : RmqOptions

pub record RmqSource : Type 0 where
  pub consumer : Consumer
  pub consume_timeout : ℕ

module _ {W : Type 0} (amqp : Amqp W) where
  unfoldable pub make_consumer : RmqOptions → Cmd W Consumer
  unfolding mq_entity ensure_queue
  make_consumer options = do
    channel ← mq_entity amqp options
    ensure_queue amqp channel options
    tag ← amqp.basic_consume channel options.queue_name
    pure (record { channel = some channel; consumer_tag = tag; options = default_options })

  unfoldable pub stop : Consumer → Cmd W Consumer
  stop c = elim c.channel [
    | none ↦ pure c
    | some channel ↦ do amqp.basic_cancel channel c.consumer_tag; pure (record c { channel = none })
  ]

  module _ {Json T : Type 0} (parse : List ℕ → Option Json) (r : RmqSerialized Json T) where
    abbrev pub of_envelope : Option (List ℕ) → Cmd W (Option T)
    of_envelope none = pure none
    of_envelope (some body) = do v ← from_body parse r body; pure (some v)

    unfoldable pub consume : Consumer → (timeout : ℕ) → Cmd W (Option T)
    unfolding from_body
    consume c timeout = elim c.channel [
      | none ↦ (λ _. undefined)
      | some channel ↦ do
        envelope ← amqp.basic_consume_message channel c.consumer_tag timeout
        of_envelope envelope
    ]

    unfoldable pub process : RmqSource → Cmd W (Option T)
    unfolding consume
    process s = consume s.consumer s.consume_timeout
