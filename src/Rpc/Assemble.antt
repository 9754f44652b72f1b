-- ===== src/Rpc/Assemble.antt =====
-- indexer/internal/rpc: ParseEventID, ParseLedgerCloseTime, and the assembly of a stored event from
-- an event of the wire. An error is `none`: the caller only logs it.
pub mod Uncounted
use pulsar_app.Base.{
  ℕ, Bool, true, false, [], ◌∷◌, ◌++◌, Option, none, some, Str, codes, eq_str, ◌==◌, if◌then◌else◌,
  ℤ, Json, arr, cut, ◌≡◌, arith, All,
}
use pulsar_app.Strconv.{parse_int, format_int}
use pulsar_app.Strconv.RoundTrip.{InInt64, parse_int-format_int}
use pulsar_app.Decoder.Value.{
  DecodedValue, decoded, Any, of_text, Values, no_values, value_then, type_symbol, marshal,
  marshal_values,
}
use pulsar_app.Decoder.Xdr.{XdrLib}
use pulsar_app.Decoder.Decode.{decode_base64, decode_topics}
use pulsar_app.Store.{Event}
use pulsar_app.Rpc.{EventInfo}

order_of : Str × Str × Bool → Option ℤ
order_of (toid, order, true) = parse_int order
order_of (toid, order, false) = none

-- `ParseEventID`
unfoldable pub parse_event_id : Str → Option ℤ
unfolding cut parse_int order_of
parse_event_id id = order_of (cut id b'-')

text_of : Any → Str
text_of (of_text s) = s
text_of _ = codes ""

-- `nameFromTopics`
unfoldable pub name_from_topics : Values → Str
unfolding text_of
name_from_topics no_values = codes ""
name_from_topics (value_then (decoded t a es x) vs) =
    if eq_str t type_symbol then text_of a else codes ""

-- `marshalTopics`: an array, also of no topics.
unfoldable pub marshal_topics : Values → Json
unfolding marshal marshal_values
marshal_topics vs = arr (marshal_values vs)

-- The row that is made of an event and of what was read of it.
abbrev pub assembled : Str → EventInfo → ℤ → ℕ → Values → DecodedValue → Event
assembled contract_id info event_index emitted_at topics value = record {
  id = 0;
  contract_id = contract_id;
  ledger = info.ledger;
  tx_hash = info.transaction_hash;
  event_index = event_index;
  name = name_from_topics topics;
  topics_json = some (marshal_topics topics);
  data_json = some (marshal value);
  raw_topics = info.topic_xdr;
  raw_data = info.value_xdr;
  emitted_at = emitted_at;
  in_successful_contract_call = info.in_successful_contract_call;
}

-- The reading of an RFC 3339 timestamp, time.Parse, is a parameter.
module _ (xdr : XdrLib) (parse_time : Str → Option ℕ) where
  with_data : Str → EventInfo → ℤ → ℕ → Values → Option DecodedValue × ℕ → Option Event × ℕ
  with_data contract_id info i t topics (none, count) = (none, count)
  with_data contract_id info i t topics (some payload, count) =
      (some (assembled contract_id info i t topics payload), count)

  with_topics : Str → EventInfo → ℤ → ℕ → Option Values × ℕ → Option Event × ℕ
  unfolding with_data
  with_topics contract_id info i t (none, count) = (none, count)
  with_topics contract_id info i t (some topics, count) =
      with_data contract_id info i t topics (decode_base64 xdr info.value_xdr count)

  with_time : Str → EventInfo → ℤ → Option ℕ → ℕ → Option Event × ℕ
  unfolding with_topics
  with_time contract_id info i none count = (none, count)
  with_time contract_id info i (some t) count =
      with_topics contract_id info i t (decode_topics xdr info.topic_xdr count)

  with_index : Str → EventInfo → Option ℤ → ℕ → Option Event × ℕ
  unfolding with_time
  with_index contract_id info none count = (none, count)
  with_index contract_id info (some i) count =
      with_time contract_id info i (parse_time info.ledger_closed_at) count

  -- `assemble`, with the decoder's counter of unknown values.
  unfoldable pub assemble : Str → EventInfo → ℕ → Option Event × ℕ
  unfolding parse_event_id with_index
  assemble contract_id info count = with_index contract_id info (parse_event_id info.id) count

cut_found :
    (before after : Str) (sep : ℕ)
    → All (λ c. (c == sep) ≡ false) before
    → cut (before ++ sep ∷ after) sep ≡ (before, after, true)
unfolding cut
cut_found [] after sep h = ground arith
cut_found (c ∷ before) after sep (hc, h) = rw (hc, cut_found before after sep h)

-- An id of the documented form, a ledger part without a dash, a dash and an order, gives the order.
pub parse_event_id-format_int :
    (toid : Str) (i : ℤ)
    → All (λ c. (c == b'-') ≡ false) toid
    → InInt64 i
    → parse_event_id (toid ++ b'-' ∷ format_int i) ≡ some i
unfolding parse_event_id order_of
parse_event_id-format_int toid i h k =
    rw (cut_found toid (format_int i) b'-' h) (parse_int-format_int i k)
