-- ===== src/Rmq/Publisher/Declares.antt =====
-- What the constructor of a publisher leaves behind, and where the publisher publishes.
use pipeline_tools.Prelude.{ℕ, ◌≡◌, refl, Bool, true, false, List, [], is_empty, if◌then◌else◌}
use pipeline_tools.Prelude.Outcome.{
  Outcome, and_then, Returns, Returns-bind, Returns-mono, Cmd, done, thrown, blocked, undefined,
  out_of_fuel, terminated, catch, throw, pure, runtime_error,
}
use pipeline_tools.Rmq.{RmqOptions, Amqp, mq_entity}
use pipeline_tools.Rmq.Serialization.{RmqSerialized, message}
use pipeline_tools.Rmq.Broker.{Keeps, Grants, Tells, Declares}
use pipeline_tools.Rmq.Publisher.{ensure_exchange, ensure_queue, make_publisher, publish}

module _ {W : Type 0} {has_exchange has_queue : List ℕ → W → Type 0} (amqp : Amqp W)
    (options : RmqOptions) (grants : Grants has_exchange has_queue options amqp) where
  abbrev pub Kept : W → W → Type 0
  Kept = Keeps has_exchange has_queue

  keeps_trans : {u v w : W} → Kept u v → Kept v w → Kept u w
  keeps_trans h k = record {
    keeps_exchange = λ name x. k.keeps_exchange name (h.keeps_exchange name x);
    keeps_queue = λ name x. k.keeps_queue name (h.keeps_queue name x);
  }

  declared :
      (P : W → Type 0) (w w' : W) (declare : Cmd W (Unit {0}))
      → Kept w w'
      → (¬ P w')
      → Declares has_exchange has_queue P declare
      → Returns (λ _ v'. P v' × Kept w v') (declare w')
  declared P w w' declare k n d =
      Returns-mono (declare w') (λ _ v h. (h.0, keeps_trans k h.1)) (d w' n)

  -- A test whose exception counts as false, and the declaration that follows it.
  ensured :
      (P : W → Type 0) (w : W) (o : Outcome W Bool) (declare : Cmd W (Unit {0}))
      → Tells has_exchange has_queue P w o
      → Declares has_exchange has_queue P declare
      → Returns
          (λ _ w'. P w' × Kept w w')
          (and_then (catch o (λ _. pure false)) (λ b. if b then pure tt else declare))
  ensured P w (done true w') declare (yes_there, no_there, k) d = (yes_there refl, k)
  ensured P w (done false w') declare (yes_there, no_there, k) d =
      declared P w w' declare k (no_there refl) d
  ensured P w (thrown e w') declare h d = declared P w w' declare h.1 h.0 d
  ensured P w blocked declare h d = h
  ensured P w undefined declare h d = h
  ensured P w out_of_fuel declare h d = h
  ensured P w terminated declare h d = h

  pub ensure_queue-exists :
      (channel : ℕ) (w : W)
      → Returns
          (λ _ w'. has_queue options.queue_name w' × Kept w w')
          (ensure_queue amqp channel options w)
  unfolding ensure_queue
  ensure_queue-exists channel w =
      ensured (has_queue options.queue_name) w
        (amqp.check_queue_exists channel options.queue_name w) _ (grants.checks_queue channel w)
        (grants.declares_queue channel)

  pub ensure_exchange-exists :
      (channel : ℕ) (w : W)
      → Returns
          (λ _ w'. has_exchange options.exchange_name w' × Kept w w')
          (ensure_exchange amqp channel options w)
  unfolding ensure_exchange
  ensure_exchange-exists channel w =
      ensured (has_exchange options.exchange_name) w
        (amqp.check_exchange_exists channel options.exchange_name w) _
        (grants.checks_exchange channel w) (grants.declares_exchange channel)

  pub mq_entity-Returns : (w : W) → Returns (λ _ w'. Kept w w') (mq_entity amqp options w)
  unfolding mq_entity
  mq_entity-Returns w =
      opened (amqp.open_channel options.uri options.username options.password w) (grants.opens w)
    where
      opened :
          (o : Outcome W ℕ)
          → Returns (λ _ w'. Kept w w') o
          → Returns (λ _ w'. Kept w w') (catch o (λ _. throw runtime_error))
      opened (done a s) h = h
      opened (thrown e s) h = absurd h
      opened blocked h = h
      opened undefined h = h
      opened out_of_fuel h = h
      opened terminated h = h

  -- On a broker that grants what the options ask for, the constructor returns a publisher, and the
  -- exchange and the queue of its options then exist, with all that existed before.
  pub make_publisher-declares :
      (routing_key : List ℕ) (w : W)
      → Returns
          (λ _ w'.
            has_exchange options.exchange_name w' × has_queue options.queue_name w' × Kept w w')
          (make_publisher amqp options routing_key w)
  unfolding make_publisher
  make_publisher-declares routing_key w =
      Returns-bind _ (mq_entity amqp options w) _ (mq_entity-Returns w) (λ channel w1 k.
        Returns-bind _ (ensure_exchange amqp channel options w1) _
          (ensure_exchange-exists channel w1)
          (λ _ w2 x.
            Returns-bind _ (ensure_queue amqp channel options w2) _ (ensure_queue-exists channel w2)
              (λ _ w3 y. (
                y.1.keeps_exchange options.exchange_name x.0,
                y.0,
                keeps_trans k (keeps_trans x.1 y.1),
              ))))

  -- Whatever exchange the options name, the publisher that the constructor returns publishes on the
  -- exchange whose name is empty: `publish` reads the options that are never set.
  pub publish-default_exchange :
      {Json T : Type 0} (dump : Json → List ℕ) (r : RmqSerialized Json T) (routing_key : List ℕ)
      (w : W)
      → Returns
          (λ p _.
            (value : T) (mandatory immediate : Bool) (w' : W)
            → publish amqp dump r p value mandatory immediate w'
              ≡ catch
                  (amqp.basic_publish p.channel []
                    (if is_empty routing_key then options.queue_name else routing_key)
                    (message dump r value)
                    mandatory
                    immediate
                    w')
                  (λ _. throw runtime_error))
          (make_publisher amqp options routing_key w)
  unfolding make_publisher publish
  publish-default_exchange dump r routing_key w =
      Returns-bind _ (mq_entity amqp options w) _ (mq_entity-Returns w) (λ channel w1 _.
        Returns-bind _ (ensure_exchange amqp channel options w1) _
          (ensure_exchange-exists channel w1)
          (λ _ w2 x.
            Returns-bind _ (ensure_queue amqp channel options w2) _ (ensure_queue-exists channel w2)
              (λ _ w3 y value mandatory immediate w'. refl)))
