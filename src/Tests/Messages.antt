-- ===== src/Tests/Messages.antt =====
-- A Kafka library whose first poll gives a message and an error, and the theorem of Messages there.
use ecommerce_platform.Prelude.{◌≡◌, refl, ℕ, zero, suc, List, [], ◌∷◌, ◌++◌, text, true, false}
use ecommerce_platform.Http.Error.{returns}
use ecommerce_platform.Messages.{ConsumerRecord, Kafka, topic, ended, record_text, consume_message}
use ecommerce_platform.Messages.Streams.{consume_message_lem}

abbrev good : ConsumerRecord
good = record {
  failed = false;
  topic = topic;
  partition = text "0";
  offset = text "7";
  timestamp = text "1";
  headers = [];
  key = [];
  value = text "value_0";
  printed = text "record";
}

abbrev bad : ConsumerRecord
bad = record good { failed = true; printed = text "timed out" }

abbrev first_poll : ℕ → List ConsumerRecord
first_poll zero = bad ∷ good ∷ []
first_poll (suc i) = []

abbrev sample_kafka : Kafka
sample_kafka = record {
  Producer = Unit {0};
  Consumer = Unit {0};
  make_producer = λ properties. returns tt;
  send = λ producer subject value. returns tt;
  make_consumer = λ properties. returns tt;
  subscribe = λ consumer subject. returns tt;
  poll = λ consumer i. returns (first_poll i);
}

consume_message_lem_example :
    consume_message sample_kafka
    ≡ (record { out = record_text good ++ []; err = ended (text "timed out") }, returns tt)
consume_message_lem_example = consume_message_lem sample_kafka tt first_poll refl refl (λ i. refl)
