-- ===== src/Rmq/Consumer/Consumes.antt =====
-- What the constructor of a consumer leaves behind, and stopping a consumer again.
use pipeline_tools.Prelude.{ℕ, ◌≡◌, refl, Option, none, some, List}
use pipeline_tools.Prelude.Outcome.{
  Outcome, Returns, Returns-bind, and_then, done, thrown, blocked, undefined, out_of_fuel,
  terminated, pure,
}
use pipeline_tools.Rmq.{RmqOptions, Amqp, mq_entity}
use pipeline_tools.Rmq.Serialization.{RmqSerialized}
use pipeline_tools.Rmq.Broker.{Grants}
use pipeline_tools.Rmq.Publisher.{ensure_queue}
use pipeline_tools.Rmq.Publisher.Declares.{mq_entity-Returns, ensure_queue-exists}
use pipeline_tools.Rmq.Consumer.{Consumer, make_consumer, stop, consume, of_envelope, process}

module _ {W : Type 0} (amqp : Amqp W) where
  stopped_again :
      (c : Consumer) (o : Outcome W (Unit {0}))
      → and_then (and_then o (λ _. pure (record c { channel = none }))) (stop amqp)
        ≡ and_then o (λ _. pure (record c { channel = none }))
  unfolding stop
  stopped_again c (done a s) = refl
  stopped_again c (thrown e s) = refl
  stopped_again c blocked = refl
  stopped_again c undefined = refl
  stopped_again c out_of_fuel = refl
  stopped_again c terminated = refl

  stop_again :
      (channel : Option ℕ) (tag : List ℕ) (options : RmqOptions) (w : W)
      → let c : Consumer = record { channel = channel; consumer_tag = tag; options = options } in
        and_then (stop amqp c w) (stop amqp) ≡ stop amqp c w
  unfolding stop
  stop_again none tag options w = refl
  stop_again (some channel) tag options w =
      stopped_again (record { channel = some channel; consumer_tag = tag; options = options })
        (amqp.basic_cancel channel tag w)

  -- Stopping a consumer again, as the destructor does, changes nothing, however the first time ended.
  pub stop-idempotent :
      (c : Consumer) (w : W) → and_then (stop amqp c w) (stop amqp) ≡ stop amqp c w
  stop-idempotent c w = stop_again c.channel c.consumer_tag c.options w

module _ {W : Type 0} {has_exchange has_queue : List ℕ → W → Type 0} (amqp : Amqp W)
    (options : RmqOptions) (grants : Grants has_exchange has_queue options amqp) {Json T : Type 0}
    (parse : List ℕ → Option Json) (r : RmqSerialized Json T) where
  -- On a broker that grants what the options ask for, the constructor returns a consumer, the queue of its options then exists, and every `process` of a source on this consumer asks
  -- the library for the next message of its subscription and converts it.
  pub make_consumer-consumes :
      (timeout : ℕ) (w : W)
      → Returns
          (λ c w'.
            has_queue options.queue_name w'
            × ((channel : ℕ) × ((w'' : W)
                  → process amqp parse r (record { consumer = c; consume_timeout = timeout }) w''
                    ≡ and_then
                        (amqp.basic_consume_message channel c.consumer_tag timeout w'')
                        (of_envelope amqp parse r))))
          (make_consumer amqp options w)
  unfolding make_consumer process consume
  make_consumer-consumes timeout w =
      Returns-bind _ (mq_entity amqp options w) _ (mq_entity-Returns amqp options grants w)
        (λ channel w1 _.
          Returns-bind _ (ensure_queue amqp channel options w1) _
            (ensure_queue-exists amqp options grants channel w1)
            (λ _ w2 y.
              Returns-bind _ (amqp.basic_consume channel options.queue_name w2) _
                (grants.consumes channel w2 y.0)
                (λ tag w3 k. (k.keeps_queue options.queue_name y.0, (channel, λ w''. refl)))))
