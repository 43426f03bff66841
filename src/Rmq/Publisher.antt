-- ===== src/Rmq/Publisher.antt =====
-- Publisher.h and Publisher.tpp. `Publisher` has a member `options` of its own besides that of
-- `MQEntity`, which the constructor does not set.
pub mod Declares
use pipeline_tools.Prelude.{ℕ, Bool, true, false, List, [], ◌∷◌, is_empty, if◌then◌else◌, Option}
use pipeline_tools.Prelude.Outcome.{
  and_then, Outcome, runtime_error, thrown, done, blocked, undefined, out_of_fuel, terminated, Cmd,
  catch, throw, pure, ◌>>=◌, ◌>>◌,
}
use pipeline_tools.Rmq.{RmqOptions, default_options, Amqp, mq_entity}
use pipeline_tools.Rmq.Serialization.{RmqSerialized, message}

pub record Publisher : Type 0 where
  pub channel : ℕ
  pub options : RmqOptions
  pub routing_key : List ℕ

module _ {W : Type 0} (amqp : Amqp W) where
  -- The two blocks of the constructor that declare what is not there.
  unfoldable pub ensure_exchange : ℕ → RmqOptions → Cmd W (Unit {0})
  ensure_exchange channel options w =
      and_then
        (catch (amqp.check_exchange_exists channel options.exchange_name w) (λ _. pure false))
        (λ exchange_exists.
          if exchange_exists
          then pure tt
          else amqp.declare_exchange channel options.exchange_name options.exchange_type
              options.exchange_passive options.exchange_durable options.exchange_auto_delete)

  unfoldable pub ensure_queue : ℕ → RmqOptions → Cmd W (Unit {0})
  ensure_queue channel options w =
      and_then (catch (amqp.check_queue_exists channel options.queue_name w) (λ _. pure false))
        (λ queue_exists.
          if queue_exists
          then pure tt
          else amqp.declare_queue channel options.queue_name options.queue_passive
              options.queue_durable options.queue_exclusive options.queue_auto_delete)

  unfoldable pub make_publisher : RmqOptions → (routing_key : List ℕ) → Cmd W Publisher
  unfolding mq_entity ensure_exchange ensure_queue
  make_publisher options routing_key = do
    channel ← mq_entity amqp options
    ensure_exchange channel options
    ensure_queue channel options
    pure (record {
      channel = channel;
      options = default_options;
      routing_key = if is_empty routing_key then options.queue_name else routing_key;
    })

  unfoldable pub publish :
      {Json T : Type 0} (dump : Json → List ℕ)
      → RmqSerialized Json T
      → Publisher
      → T
      → (mandatory immediate : Bool) → Cmd W (Unit {0})
  unfolding message
  publish dump r p value mandatory immediate w =
      catch
        (amqp.basic_publish p.channel p.options.exchange_name p.routing_key (message dump r value)
          mandatory immediate w)
        (λ _. throw runtime_error)
