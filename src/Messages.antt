-- ===== src/Messages.antt =====
-- ProduceMessage and ConsumeMessage of services/ProcessOrdersService/main.cpp. Parameter: the Kafka
-- library, whose calls may throw; what a consumer polls depends on how often it has polled.
pub mod Streams
use ecommerce_platform.Prelude.{
  ℕ, zero, suc, Bool, true, false, List, [], ◌∷◌, ◌++◌, Option, none, some, Text, text, pos,
  if◌then◌else◌,
}
use ecommerce_platform.Http.Error.{Outcome, returns, go_on}
use ecommerce_platform.Parser.Integral.{to_string}

pub record ConsumerRecord : Type 0 where
  -- Whether it carries an error.
  pub failed : Bool
  pub topic : Text
  pub partition : Text
  pub offset : Text
  pub timestamp : Text
  pub headers : Text
  pub key : Text
  pub value : Text
  -- toString of the whole record
  pub printed : Text

pub record Kafka : Type 1 where
  pub Producer : Type 0
  pub Consumer : Type 0
  pub make_producer : List (Text × Text) → Outcome Producer
  pub send : Producer → Text → Text → Outcome (Unit {0})
  pub make_consumer : List (Text × Text) → Outcome Consumer
  pub subscribe : Consumer → Text → Outcome (Unit {0})
  pub poll : Consumer → ℕ → Outcome (List ConsumerRecord)

abbrev pub brokers : Text
brokers = text "localhost:9092"

abbrev pub topic : Text
topic = text "test-topic"

-- What is written to the standard output and to the standard error.
pub record Written : Type 0 where
  pub out : Text
  pub err : Text

abbrev pub nothing_written : Written
nothing_written = record { out = []; err = [] }

abbrev pub and_written : Written → Written → Written
and_written a b = record { out = a.out ++ b.out; err = a.err ++ b.err }

abbrev pub ended : Text → Text
ended s = s ++ 10 ∷ []

-- The delivery report handler, for an error's message or for the metadata.
unfoldable pub delivery_report : Option Text → Text → Written
delivery_report none metadata = record {
  out = ended (text "% Message delivered: " ++ metadata);
  err = [];
}
delivery_report (some message) metadata = record {
  out = [];
  err = ended (text "% Message delivery failed: " ++ message);
}

abbrev pub message : ℕ → Text
message i = text "value_" ++ to_string (pos i)

unfoldable pub record_text : ConsumerRecord → Text
record_text r =
    ended (text "Got a new message...")
    ++ (ended (text "    Topic    : " ++ r.topic)
        ++ (ended (text "    Partition: " ++ r.partition)
            ++ (ended (text "    Offset   : " ++ r.offset)
                ++ (ended (text "    Timestamp: " ++ r.timestamp)
                    ++ (ended (text "    Headers  : " ++ r.headers)
                        ++ (ended (text "    Key   [" ++ (r.key ++ text "]"))
                            ++ ended (text "    Value [" ++ (r.value ++ text "]"))))))))

-- The body of the loop over the records of a poll.
unfoldable pub print_record : ConsumerRecord → Written
print_record r =
    if r.failed
    then record { out = []; err = ended r.printed }
    else record { out = record_text r; err = [] }

unfoldable pub print_records : List ConsumerRecord → Written
unfolding print_record
print_records [] = nothing_written
print_records (r ∷ rs) = and_written (print_record r) (print_records rs)

module _ (kafka : Kafka) where
  open kafka use {Producer, Consumer, make_producer, send, make_consumer, subscribe, poll}

  -- The loop of ProduceMessage, `n` rounds from `i` on, behind the values that were sent.
  unfoldable pub produce_from : Producer → ℕ → ℕ → List Text → List Text × Outcome (Unit {0})
  produce_from producer zero i sent = (sent, returns tt)
  produce_from producer (suc n) i sent =
      go_on (send producer topic (message i)) sent
        (λ u. produce_from producer n (suc i) (sent ++ message i ∷ []))

  unfoldable pub produce_message : List Text × Outcome (Unit {0})
  unfolding produce_from
  produce_message =
      go_on
        (make_producer
          ((text "bootstrap.servers", brokers) ∷ (text "enable.idempotence", text "true") ∷ []))
        [] (λ producer. produce_from producer 10 0 [])

  -- The loop of ConsumeMessage, `n` polls from the one with the number `i` on, behind what is
  -- written.
  unfoldable pub consume_from : Consumer → ℕ → ℕ → Written → Written × Outcome (Unit {0})
  unfolding print_records
  consume_from consumer zero i written = (written, returns tt)
  consume_from consumer (suc n) i written =
      go_on (poll consumer i) written
        (λ records. consume_from consumer n (suc i) (and_written written (print_records records)))

  unfoldable pub consume_message : Written × Outcome (Unit {0})
  unfolding consume_from
  consume_message =
      go_on (make_consumer ((text "bootstrap.servers", brokers) ∷ [])) nothing_written (λ consumer.
        go_on (subscribe consumer topic) nothing_written
          (λ subscribed. consume_from consumer 100 0 nothing_written))
