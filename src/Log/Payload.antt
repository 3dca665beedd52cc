-- ===== src/Log/Payload.antt =====
-- hobo/log/events.py: an event as the tagged dictionary that the log persists.
use hobo.Prelude.{String, Option, none, some, Result, ok, ◌>>=◌}
use hobo.Prelude.Data.{
  Data, null, boolean, int, float, text, object, Fields, field, end, item, fields_of,
}
use hobo.Log.Event.{
  LogEvent, mark_update, funding_update, fill, limit_change, kill_switch, order_request,
  gate_decision, reconciliation_warning, unknown, Envelope,
}

-- `Envelope` as it is in the source: a tag and a payload. `from_json_dict` takes whatever values the
-- dictionary has.
pub record RawEnvelope (F : Type 0) : Type 0 where
  pub seq : Data F
  pub ts_ns : Data F
  pub event_type : Data F
  pub payload : Data F

module _ {F : Type 0} where
  unfoldable pub to_json_dict : RawEnvelope F → Data F
  to_json_dict e = object (
      field "seq" e.seq
        (field "ts_ns" e.ts_ns (field "event_type" e.event_type (field "payload" e.payload end))))

  unfoldable pub from_json_dict : Data F → Result (RawEnvelope F)
  from_json_dict d = do
    seq ← item d "seq"
    ts_ns ← item d "ts_ns"
    event_type ← item d "event_type"
    payload ← item d "payload"
    ok (record { seq = seq; ts_ns = ts_ns; event_type = event_type; payload = payload })

  -- The `event_type` of each class.
  unfoldable pub event_type_of : LogEvent F → String
  event_type_of (mark_update iid price ts) = "MARK_UPDATE"
  event_type_of (funding_update iid rate time) = "FUNDING_UPDATE"
  event_type_of (fill p) = "FILL"
  event_type_of (limit_change p) = "LIMIT_CHANGE"
  event_type_of (kill_switch p) = "KILL_SWITCH"
  event_type_of (order_request p) = "ORDER_REQUEST"
  event_type_of (gate_decision p) = "GATE_DECISION"
  event_type_of (reconciliation_warning p) = "RECONCILIATION_WARNING"
  event_type_of (unknown t) = t

  -- A field that an old log does not have, and one that may be `None`.
  abbrev pub if_given {ℓ} : {A : Type ℓ} → (A → Data F) → String → Option A → Fields F → Fields F
  if_given write k none fields = fields
  if_given write k (some a) fields = field k (write a) fields

  abbrev pub or_null : Option String → Data F
  or_null none = null
  or_null (some s) = text s

  -- `to_dict`, which is `dataclasses.asdict`.
  unfoldable pub to_dict : LogEvent F → Data F
  to_dict (mark_update iid price ts) = object (
      field "instrument_id" (text iid)
        (field "mark_price" (float price) (field "ts_exch_ns" (int ts) end)))
  to_dict (funding_update iid rate time) = object (
      field "instrument_id" (text iid)
        (field "funding_rate" (float rate) (field "funding_time_ns" (int time) end)))
  to_dict (fill p) = object (
      field "order_id" (text p.order_id) (
        field "book_id" (text p.book_id) (
          field "instrument_id" (text p.instrument_id) (
            field "side" (text p.side) (
              field "qty" (float p.qty) (
                field "fill_price" (float p.fill_price)
                  (if_given float "fee" p.fee (if_given text "trade_id" p.trade_id end))))))))
  to_dict (limit_change p) = object (
      field "scope" (text p.scope) (
        field "field" (text p.field) (
          field "old" (float p.old)
            (field "new" (float p.new) (field "book_id" (or_null p.book_id) end)))))
  to_dict (kill_switch p) = object (
      field "scope" (text p.scope) (
        field "id" (text p.id)
          (field "enabled" (boolean p.enabled) (if_given text "reason" p.reason end))))
  to_dict (order_request p) = object (
      field "order_id" (text p.order_id) (
        field "book_id" (text p.book_id) (
          field "instrument_id" (text p.instrument_id) (
            field "side" (text p.side)
              (field "qty" (float p.qty) (field "order_type" (text p.order_type) end))))))
  to_dict (gate_decision p) = object (
      field "order_id" (text p.order_id) (
        field "book_id" (text p.book_id) (
          field "approved" (boolean p.approved) (
            field "reason" (text p.reason)
              (field "detail" (object (fields_of (λ d. d) p.detail)) end)))))
  to_dict (reconciliation_warning p) =
      object
        (field "kind" (text p.kind) (field "detail" (object (fields_of (λ d. d) p.detail)) end))
  to_dict (unknown t) = object end

  -- What `append` persists of an event.
  unfoldable pub raw_of : Envelope (LogEvent F) → RawEnvelope F
  raw_of e = record {
    seq = int e.seq;
    ts_ns = int e.ts_ns;
    event_type = text (event_type_of e.event);
    payload = to_dict e.event;
  }
