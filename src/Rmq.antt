-- ===== src/Rmq.antt =====
-- core/src/utils/ipc/rmq: RMQOptions and MQEntity. SimpleAmqpClient and the broker behind it are a
-- parameter, the record `Amqp` on a state `W`: each call returns or throws. A channel is a number. The
-- lines of the logger are left out.
mod Tests
pub mod Serialization
pub mod Broker
pub mod Publisher
pub mod Consumer
use pipeline_tools.Prelude.{ℕ, Bool, false, Option, List, [], codes}
use pipeline_tools.Prelude.Outcome.{
  Outcome, runtime_error, thrown, done, blocked, undefined, out_of_fuel, terminated, Cmd, catch,
  throw,
}

pub record RmqOptions : Type 0 where
  pub uri : List ℕ
  pub username : List ℕ
  pub password : List ℕ
  pub exchange_name : List ℕ
  pub exchange_type : List ℕ
  pub exchange_passive : Bool
  pub exchange_durable : Bool
  pub exchange_auto_delete : Bool
  pub queue_name : List ℕ
  pub queue_passive : Bool
  pub queue_durable : Bool
  pub queue_exclusive : Bool
  pub queue_auto_delete : Bool

-- `RMQOptions {}`.
abbrev pub default_options : RmqOptions
default_options = record {
  uri = [];
  username = [];
  password = [];
  exchange_name = [];
  exchange_type = codes "direct";
  exchange_passive = false;
  exchange_durable = false;
  exchange_auto_delete = false;
  queue_name = [];
  queue_passive = false;
  queue_durable = false;
  queue_exclusive = false;
  queue_auto_delete = false;
}

pub record Message : Type 0 where
  pub content_type : Option (List ℕ)
  pub body : List ℕ

pub record Amqp (W : Type 0) : Type 0 where
  pub open_channel : (uri username password : List ℕ) → Cmd W ℕ
  pub check_exchange_exists : (channel : ℕ) (name : List ℕ) → Cmd W Bool
  pub declare_exchange :
      (channel : ℕ) (name kind : List ℕ) (passive durable auto_delete : Bool) → Cmd W (Unit {0})
  pub check_queue_exists : (channel : ℕ) (name : List ℕ) → Cmd W Bool
  pub declare_queue :
      (channel : ℕ) (name : List ℕ) (passive durable exclusive auto_delete : Bool)
      → Cmd W (Unit {0})
  pub basic_consume : (channel : ℕ) (name : List ℕ) → Cmd W (List ℕ)
  pub basic_consume_message : (channel : ℕ) (tag : List ℕ) (timeout : ℕ) → Cmd W (Option (List ℕ))
  pub basic_cancel : (channel : ℕ) (tag : List ℕ) → Cmd W (Unit {0})
  pub basic_publish :
      (channel : ℕ) (exchange routing_key : List ℕ)
      → Message
      → (mandatory immediate : Bool) → Cmd W (Unit {0})

-- The constructor of `MQEntity`, with the channel as its result.
unfoldable pub mq_entity : {W : Type 0} → Amqp W → RmqOptions → Cmd W ℕ
mq_entity amqp options w =
    catch (amqp.open_channel options.uri options.username options.password w)
      (λ _. throw runtime_error)
