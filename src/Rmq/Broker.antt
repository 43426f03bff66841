-- ===== src/Rmq/Broker.antt =====
-- A broker that grants what some options ask for, by what SimpleAmqpClient documents of its calls: the
-- channel opens; a test for the exchange or the queue of the options tells whether that exists, and
-- where it throws instead there is none; the options' declaration of what is not there returns, and it
-- is there then; no call makes an exchange or a queue go away. Nothing is said of other options, which
-- the broker may refuse.
use pipeline_tools.Prelude.{ℕ, ◌≡◌, Bool, true, false, List}
use pipeline_tools.Prelude.Outcome.{Outcome, Cmd, Ends, Returns}
use pipeline_tools.Rmq.{RmqOptions, Amqp}

module _ {W : Type 0} (has_exchange has_queue : List ℕ → W → Type 0) where
  -- What exists in the one state exists in the other.
  pub record Keeps (w w' : W) : Type 0 where
    pub keeps_exchange : (name : List ℕ) → has_exchange name w → has_exchange name w'
    pub keeps_queue : (name : List ℕ) → has_queue name w → has_queue name w'

  -- The answer of a test for what `P` states.
  abbrev pub Tells : (P : W → Type 0) → W → Outcome W Bool → Type 0
  Tells P w =
      Ends (λ b w'. (b ≡ true → P w') × (b ≡ false → ¬ P w') × Keeps w w')
        (λ _ w'. (¬ P w') × Keeps w w')

  -- A declaration of what is not there.
  abbrev pub Declares : (P : W → Type 0) → Cmd W (Unit {0}) → Type 0
  Declares P declare = (w : W) → (¬ P w) → Returns (λ _ w'. P w' × Keeps w w') (declare w)

  pub record Grants (options : RmqOptions) (amqp : Amqp W) : Type 0 where
    pub opens :
        (w : W)
        → Returns
            (λ _ w'. Keeps w w')
            (amqp.open_channel options.uri options.username options.password w)
    pub checks_exchange :
        (channel : ℕ) (w : W)
        → Tells
            (has_exchange options.exchange_name)
            w
            (amqp.check_exchange_exists channel options.exchange_name w)
    pub checks_queue :
        (channel : ℕ) (w : W)
        → Tells
            (has_queue options.queue_name)
            w
            (amqp.check_queue_exists channel options.queue_name w)
    pub declares_exchange :
        (channel : ℕ)
        → Declares (has_exchange options.exchange_name) (
            amqp.declare_exchange channel options.exchange_name options.exchange_type
              options.exchange_passive options.exchange_durable options.exchange_auto_delete)
    pub declares_queue :
        (channel : ℕ)
        → Declares (has_queue options.queue_name) (
            amqp.declare_queue channel options.queue_name options.queue_passive
              options.queue_durable options.queue_exclusive options.queue_auto_delete)
    pub consumes :
        (channel : ℕ) (w : W)
        → has_queue options.queue_name w
        → Returns (λ _ w'. Keeps w w') (amqp.basic_consume channel options.queue_name w)
