-- ===== src/Messages/Streams.antt =====
-- What ConsumeMessage writes and to which stream, and what ends it.
use ecommerce_platform.Prelude.{
  ℕ, zero, suc, ◌≡◌, refl, sym, ap, ◌∙◌, Bool, true, false, List, [], ◌∷◌, ◌++◌, append-nil,
  append_assoc, Text, text, Bool-cases, inl, inr, if◌then◌else◌,
}
use ecommerce_platform.Http.Error.{returns}
use ecommerce_platform.Messages.{
  ConsumerRecord, Kafka, Written, nothing_written, and_written, record_text, print_record,
  print_records, consume_from, consume_message, topic, brokers, ended,
}

-- The records with an error, or those without one.
abbrev pub those : Bool → List ConsumerRecord → List ConsumerRecord
those failed [] = []
those failed (r ∷ rs) =
    let rest = those failed rs in
    if r.failed then (if failed then r ∷ rest else rest) else (if failed then rest else r ∷ rest)

-- The texts of records, one after the other.
abbrev pub all_texts : (ConsumerRecord → Text) → List ConsumerRecord → Text
all_texts shown [] = []
all_texts shown (r ∷ rs) = shown r ++ all_texts shown rs

out_lem :
    (rs : List ConsumerRecord) → (print_records rs).out ≡ all_texts record_text (those false rs)
unfolding print_records print_record
out_lem [] = refl
out_lem (r ∷ rs) = elim (Bool-cases r.failed) [
  | inl bad ↦ rw (bad, out_lem rs) refl
  | inr good ↦ rw (good, out_lem rs) refl
]

err_lem :
    (rs : List ConsumerRecord)
    → (print_records rs).err ≡ all_texts (λ r. ended r.printed) (those true rs)
unfolding print_records print_record
err_lem [] = refl
err_lem (r ∷ rs) = elim (Bool-cases r.failed) [
  | inl bad ↦ rw (bad, err_lem rs) refl
  | inr good ↦ rw (good, err_lem rs) refl
]

and_written_assoc :
    (a b c : Written) → and_written (and_written a b) c ≡ and_written a (and_written b c)
and_written_assoc a b c = rw (append_assoc a.out b.out c.out, append_assoc a.err b.err c.err) refl

and_written-nothing : (a : Written) → and_written a nothing_written ≡ a
and_written-nothing a = rw (append-nil a.out, append-nil a.err) refl

print_records-append :
    (rs ss : List ConsumerRecord)
    → print_records (rs ++ ss) ≡ and_written (print_records rs) (print_records ss)
unfolding print_records
print_records-append [] ss = refl
print_records-append (r ∷ rs) ss =
    ap (and_written (print_record r)) (print_records-append rs ss)
    ∙ sym (and_written_assoc (print_record r) (print_records rs) (print_records ss))

-- The records of `n` polls from the one with the number `i` on.
abbrev pub all_polled : (ℕ → List ConsumerRecord) → ℕ → ℕ → List ConsumerRecord
all_polled polled zero i = []
all_polled polled (suc n) i = polled i ++ all_polled polled n (suc i)

module _ (kafka : Kafka) (consumer : kafka.Consumer) (polled : ℕ → List ConsumerRecord) where
  consume_from_lem :
      ((i : ℕ) → kafka.poll consumer i ≡ returns (polled i))
      → (n i : ℕ) (w : Written)
      → consume_from kafka consumer n i w
        ≡ (and_written w (print_records (all_polled polled n i)), returns tt)
  unfolding consume_from print_records
  consume_from_lem h zero i w = ap (λ v. (v, returns tt)) (sym (and_written-nothing w))
  consume_from_lem h (suc n) i w = rw (h i) (
      consume_from_lem h n (suc i) (and_written w (print_records (polled i)))
      ∙ ap (λ v. (v, returns tt))
          (and_written_assoc w (print_records (polled i))
              (print_records (all_polled polled n (suc i)))
            ∙ ap (and_written w)
                (sym (print_records-append (polled i) (all_polled polled n (suc i))))))

  -- If no call of the library throws, ConsumeMessage returns, and of what the hundred polls give,
  -- in their order, each record without an error has its lines on the standard output and each
  -- other one its text on the standard error.
  pub consume_message_lem :
      kafka.make_consumer ((text "bootstrap.servers", brokers) ∷ []) ≡ returns consumer
      → kafka.subscribe consumer topic ≡ returns tt
      → ((i : ℕ) → kafka.poll consumer i ≡ returns (polled i))
      → consume_message kafka ≡ (
        record {
          out = all_texts record_text (those false (all_polled polled 100 0));
          err = all_texts (λ r. ended r.printed) (those true (all_polled polled 100 0));
        },
        returns tt,
      )
  unfolding consume_message
  consume_message_lem made subscribed h =
      rw (made, subscribed)
        (consume_from_lem h 100 0 nothing_written
          ∙ rw (out_lem (all_polled polled 100 0), err_lem (all_polled polled 100 0)) refl)
