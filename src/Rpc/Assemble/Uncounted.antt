-- ===== src/Rpc/Assemble/Uncounted.antt =====
-- indexer/internal/rpc/events.go: the event that assemble makes, apart from the decoder's counter.
use pulsar_app.Base.{ℕ, Option, none, some, Str, ℤ, ◌≡◌, refl, ap, ◌∙◌}
use pulsar_app.Decoder.Xdr.{XdrLib}
use pulsar_app.Decoder.Value.{DecodedValue, Values}
use pulsar_app.Decoder.Decode.{decode_base64, decode_topics}
use pulsar_app.Decoder.Decode.Uncounted.{
  IsUncounted, decode_base64-IsUncounted, decode_topics-IsUncounted,
}
use pulsar_app.Store.{Event}
use pulsar_app.Rpc.{EventInfo}
use pulsar_app.Rpc.Assemble.{
  assembled, with_data, with_topics, with_time, with_index, parse_event_id, assemble,
}

module _ (xdr : XdrLib) (parse_time : Str → Option ℕ) (contract_id : Str) (info : EventInfo) where
  data_same :
      (i : ℤ) (t : ℕ) (vs : Values) (p q : Option DecodedValue × ℕ)
      → p.0 ≡ q.0
      → (with_data xdr parse_time contract_id info i t vs p).0
        ≡ (with_data xdr parse_time contract_id info i t vs q).0
  unfolding with_data
  data_same i t vs (none, m) (none, n) h = refl
  data_same i t vs (none, m) (some w, n) h = absurd cc
  data_same i t vs (some v, m) (none, n) h = absurd cc
  data_same i t vs (some v, m) (some w, n) h =
      let k : v ≡ w = cc in ap (λ x. some (assembled contract_id info i t vs x)) k

  topics_same :
      (i : ℤ) (t : ℕ) (p q : Option Values × ℕ)
      → p.0 ≡ q.0
      → (with_topics xdr parse_time contract_id info i t p).0
        ≡ (with_topics xdr parse_time contract_id info i t q).0
  unfolding with_topics
  topics_same i t (none, m) (none, n) h = refl
  topics_same i t (none, m) (some ws, n) h = absurd cc
  topics_same i t (some vs, m) (none, n) h = absurd cc
  topics_same i t (some vs, m) (some ws, n) h =
      let k : vs ≡ ws = cc in
      data_same i t vs (decode_base64 xdr info.value_xdr m) (decode_base64 xdr info.value_xdr n)
        (decode_base64-IsUncounted xdr info.value_xdr m n)
      ∙ ap
          (λ x.
            (with_data xdr parse_time contract_id info i t x
              (decode_base64 xdr info.value_xdr n)).0)
          k

  time_same : (i : ℤ) (o : Option ℕ) → IsUncounted (with_time xdr parse_time contract_id info i o)
  unfolding with_time
  time_same i none m n = refl
  time_same i (some t) m n =
      topics_same i t (decode_topics xdr info.topic_xdr m) (decode_topics xdr info.topic_xdr n)
        (decode_topics-IsUncounted xdr info.topic_xdr m n)

  index_same : (o : Option ℤ) → IsUncounted (with_index xdr parse_time contract_id info o)
  unfolding with_index
  index_same none m n = refl
  index_same (some i) m n = time_same i (parse_time info.ledger_closed_at) m n

  -- The event that is made of an event of the wire does not depend on the decoder's counter.
  pub assemble-IsUncounted : IsUncounted (assemble xdr parse_time contract_id info)
  unfolding assemble
  assemble-IsUncounted = index_same (parse_event_id info.id)

  -- The event that is made of an event of the wire, if there is one.
  abbrev pub event_of : Option Event
  event_of = (assemble xdr parse_time contract_id info 0).0

  -- It has the ledger of the event of the wire, and the contract that is polled.
  abbrev pub HasSource : Option Event → Type 0
  HasSource none = Unit
  HasSource (some e) = (e.ledger ≡ info.ledger) × (e.contract_id ≡ contract_id)

  data-HasSource :
      (i : ℤ) (t : ℕ) (vs : Values) (p : Option DecodedValue × ℕ)
      → HasSource (with_data xdr parse_time contract_id info i t vs p).0
  unfolding with_data
  data-HasSource i t vs (none, m) = tt
  data-HasSource i t vs (some v, m) = (refl, refl)

  topics-HasSource :
      (i : ℤ) (t : ℕ) (p : Option Values × ℕ)
      → HasSource (with_topics xdr parse_time contract_id info i t p).0
  unfolding with_topics
  topics-HasSource i t (none, m) = tt
  topics-HasSource i t (some vs, m) = data-HasSource i t vs (decode_base64 xdr info.value_xdr m)

  time-HasSource :
      (i : ℤ) (o : Option ℕ) (n : ℕ) → HasSource (with_time xdr parse_time contract_id info i o n).0
  unfolding with_time
  time-HasSource i none n = tt
  time-HasSource i (some t) n = topics-HasSource i t (decode_topics xdr info.topic_xdr n)

  index-HasSource :
      (o : Option ℤ) (n : ℕ) → HasSource (with_index xdr parse_time contract_id info o n).0
  unfolding with_index
  index-HasSource none n = tt
  index-HasSource (some i) n = time-HasSource i (parse_time info.ledger_closed_at) n

  pub assemble-HasSource : (n : ℕ) → HasSource (assemble xdr parse_time contract_id info n).0
  unfolding assemble
  assemble-HasSource n = index-HasSource (parse_event_id info.id) n
