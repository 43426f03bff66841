-- ===== src/Rmq/Tests.antt =====
-- A broker that refuses empty names, and the theorems on it.
use pipeline_tools.Prelude.{
  is_empty, if◌then◌else◌, ℕ, ◌≡◌, refl, Bool, true, false, ◌||◌, some, List, [], ◌∷◌, codes,
  same_text, same_text_refl, Bool-cases, inl, inr,
}
use pipeline_tools.Prelude.Outcome.{Cmd, done, Returns, pure, and_then, throw, runtime_error}
use pipeline_tools.Rmq.{Amqp, RmqOptions, default_options}
use pipeline_tools.Rmq.Broker.{Keeps, Grants}
use pipeline_tools.Rmq.Publisher.{make_publisher}
use pipeline_tools.Rmq.Publisher.Declares.{make_publisher-declares}
use pipeline_tools.Rmq.Consumer.{stop}
use pipeline_tools.Rmq.Consumer.Consumes.{stop-idempotent}

record Names : Type 0 where
  exchanges : List (List ℕ)
  queues : List (List ℕ)

abbrev holds : List ℕ → List (List ℕ) → Bool
holds name [] = false
holds name (n ∷ ns) = same_text n name || holds name ns

abbrev declare_exchange_there :
    (channel : ℕ) (name kind : List ℕ) (passive durable auto_delete : Bool) → Cmd Names (Unit {0})
declare_exchange_there _ name _ passive _ _ w =
    if passive || is_empty name
    then throw runtime_error w
    else done tt (record w { exchanges = name ∷ w.exchanges })

abbrev declare_queue_there :
    (channel : ℕ) (name : List ℕ) (passive durable exclusive auto_delete : Bool)
    → Cmd Names (Unit {0})
declare_queue_there _ name passive _ _ _ w =
    if passive || is_empty name
    then throw runtime_error w
    else done tt (record w { queues = name ∷ w.queues })

abbrev broker : Amqp Names
broker = record {
  open_channel = λ uri _ _. if is_empty uri then throw runtime_error else pure 1;
  check_exchange_exists = λ _ name w. done (holds name w.exchanges) w;
  declare_exchange = declare_exchange_there;
  check_queue_exists = λ _ name w. done (holds name w.queues) w;
  declare_queue = declare_queue_there;
  basic_consume = λ _ _. pure (codes "tag");
  basic_consume_message = λ _ _ _. pure (some (codes "7"));
  basic_cancel = λ _ _. pure tt;
  basic_publish = λ _ _ _ _ _ _. pure tt;
}

abbrev HasExchange : List ℕ → Names → Type 0
HasExchange name w = holds name w.exchanges ≡ true

abbrev HasQueue : List ℕ → Names → Type 0
HasQueue name w = holds name w.queues ≡ true

Keeps-refl : (w : Names) → Keeps HasExchange HasQueue w w
Keeps-refl w = record { keeps_exchange = λ _ h. h; keeps_queue = λ _ h. h }

holds_more :
    (name n : List ℕ) (ns : List (List ℕ)) → holds name ns ≡ true → holds name (n ∷ ns) ≡ true
holds_more name n ns h = elim (Bool-cases (same_text n name)) [
  | inl e ↦ rw e refl
  | inr e ↦ rw (e, h) refl
]

holds_first : (n : List ℕ) (ns : List (List ℕ)) → holds n (n ∷ ns) ≡ true
holds_first n ns = rw (same_text_refl n) refl

abbrev orders : RmqOptions
orders = record default_options {
  uri = codes "amqp://localhost";
  exchange_name = codes "shop";
  queue_name = codes "orders";
}

not_both : {b : Bool} → b ≡ false → ¬ (b ≡ true)
not_both no_b yes_b = cc

broker-Grants : Grants HasExchange HasQueue orders broker
broker-Grants = record {
  opens = λ w. Keeps-refl w;
  checks_exchange = λ _ w. (λ e. e, not_both, Keeps-refl w);
  checks_queue = λ _ w. (λ e. e, not_both, Keeps-refl w);
  declares_exchange = λ _ w _. (
    holds_first (codes "shop") w.exchanges,
    record {
      keeps_exchange = λ n h. holds_more n (codes "shop") w.exchanges h;
      keeps_queue = λ _ h. h;
    },
  );
  declares_queue = λ _ w _. (
    holds_first (codes "orders") w.queues,
    record {
      keeps_exchange = λ _ h. h;
      keeps_queue = λ n h. holds_more n (codes "orders") w.queues h;
    },
  );
  consumes = λ _ w _. Keeps-refl w;
}

abbrev fresh : Names
fresh = record { exchanges = []; queues = [] }

make_publisher-declares_example :
    Returns
      (λ _ w'.
        HasExchange (codes "shop") w'
        × HasQueue (codes "orders") w'
        × Keeps HasExchange HasQueue fresh w')
      (make_publisher broker orders [] fresh)
make_publisher-declares_example = make_publisher-declares broker orders broker-Grants [] fresh

stop-idempotent_example :
    and_then
      (stop broker
        (record { channel = some 1; consumer_tag = codes "tag"; options = default_options })
        fresh)
      (stop broker)
    ≡ stop broker
        (record { channel = some 1; consumer_tag = codes "tag"; options = default_options })
        fresh
stop-idempotent_example = stop-idempotent broker _ fresh
