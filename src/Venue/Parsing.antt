-- ===== src/Venue/Parsing.antt =====
-- hobo/adapters/okx/parsing.py: a raw frame to a message. `json.loads`, `float` and `int` are the
-- parameter `Reader`.
use Prim.Native.Nat.{◌*◌}
use hobo.Prelude.{
  ℕ, String, Bool, true, false, Option, none, some, ◌⊎◌, inl, inr, ◌==◌, not, ◌||◌, str_eq,
  if◌then◌else◌, Result, ok, err, key_error, type_error, ◌>>=◌,
}
use hobo.Prelude.Data
use hobo.Prelude.Data.{
  Data, null, boolean, int, float, text, array, object, Items, nil, cons, Fields, field, end, item,
  text_of,
}
use hobo.Float.{Num, ◌==◌ as ◌≐◌}
use hobo.Venue.Socket.{ParsedMessage}

-- `json.loads` (`none` for a JSONDecodeError), `float(v)` and `int(v)`.
pub record Reader (F : Type 0) : Type 0 where
  pub loads : String → Option (Data F)
  pub float_from : Data F → Result F
  pub int_from : Data F → Result ℕ

module _ {F : Type 0} where
  abbrev pub terminal : String → Option (Data F) → ParsedMessage F
  terminal key content = record {
    key = key;
    content = content;
    is_heartbeat = false;
    is_control = true;
    is_error = false;
  }

  abbrev pub failure : Data F → ParsedMessage F
  failure msg = record (terminal "error" (some msg)) { is_error = true }

  abbrev pub channel_message : String → Data F → ParsedMessage F
  channel_message key content = record (terminal key (some content)) { is_control = false }

  -- `v == s` for a text `s`.
  abbrev pub is_text : Option (Data F) → String → Bool
  is_text (some (text t)) s = str_eq t s
  is_text _ s = false

  -- A value that can be the key of a dict.
  abbrev pub hashable : Option (Data F) → Result (Option (Data F))
  hashable (some (array items)) = err type_error
  hashable (some (object fields)) = err type_error
  hashable v = ok v

  -- `data[0]`
  unfoldable pub first : Data F → Result (Data F)
  first (array (cons v vs)) = ok v
  first (object fields) = err key_error
  first (text (String.◌∷◌ c s)) = ok (text (String.◌∷◌ c ""))
  first _ = err type_error

  -- A message that all connections have in common, or the decoded frame.
  abbrev pub envelope_of : Data F → Option (Data F) → ParsedMessage F ⊎ Data F
  envelope_of msg event =
      if is_text event "error"
      then inl (failure msg)
      else if is_text event "subscribe"
      then inl (terminal "subscribe_ack" (some msg))
      else inr msg

module _ {F : Type 0} (reader : Reader F) where
  -- `_parse_envelope`
  unfoldable pub parse_envelope : String → Result (ParsedMessage F ⊎ Data F)
  parse_envelope raw =
      let decoded : Result (ParsedMessage F ⊎ Data F) = elim (reader.loads raw) [
        | none ↦ ok (inl (terminal "ignored" (some (object (field "unparsed" (text raw) end)))))
        | some msg ↦ Data.get msg "event" >>= λ event. ok (envelope_of msg event)
      ] in
      if str_eq raw "pong"
      then ok (inl (record (terminal "pong" none) { is_heartbeat = true; is_control = false }))
      else decoded

  abbrev pub milliseconds : Data F → String → Result ℕ
  milliseconds entry key = item entry key >>= λ v. reader.int_from v >>= λ ms. ok (ms * 1000000)

  -- `instId` is a text in every frame of the venue; here, where it is none, the event that would hold
  -- it is not made.
  unfoldable pub decode_mark_price : Data F → Result (Data F)
  decode_mark_price entry = do
    instrument_id ← item entry "instId" >>= text_of
    mark_price ← item entry "markPx" >>= reader.float_from
    ts_ns ← milliseconds entry "ts"
    ok (
        object (
          field "instrument_id" (text instrument_id)
            (field "mark_price" (float mark_price) (field "ts_ns" (int ts_ns) end))))

  unfoldable pub decode_funding_rate : Data F → Result (Data F)
  decode_funding_rate entry = do
    instrument_id ← item entry "instId" >>= text_of
    funding_rate ← item entry "fundingRate" >>= reader.float_from
    funding_time_ns ← milliseconds entry "fundingTime"
    ts_ns ← milliseconds entry "ts"
    ok (
        object (
          field "instrument_id" (text instrument_id) (
            field "funding_rate" (float funding_rate)
              (field "funding_time_ns" (int funding_time_ns) (field "ts_ns" (int ts_ns) end)))))

module _ {F : Type 0} ⦃n : Num F⦄ where
  -- A value that is false in a test.
  abbrev pub is_false : Data F → Bool
  is_false null = true
  is_false (boolean b) = not b
  is_false (int k) = k == 0
  is_false (float x) = x ≐ n.zero_f
  is_false (text s) = str_eq s ""
  is_false (array nil) = true
  is_false (array (cons v vs)) = false
  is_false (object end) = true
  is_false (object (field k v fs)) = false

  -- `v or default`
  abbrev pub or_default : Option (Data F) → Data F → Data F
  or_default none default = default
  or_default (some v) default = if is_false v then default else v

  -- `(msg.get("arg") or {}).get("channel")`, and `msg.get("data") or []`.
  unfoldable pub channel_of : Data F → Result (Option (Data F))
  channel_of msg = Data.get msg "arg" >>= λ arg. Data.get (or_default arg (object end)) "channel"

  unfoldable pub data_of : Data F → Result (Data F)
  data_of msg = Data.get msg "data" >>= λ content. ok (or_default content (array nil))

  abbrev pub ignored : Data F → ParsedMessage F
  ignored msg = terminal "ignored" (some msg)

  -- `parse_public`, behind the envelope.
  unfoldable pub route_public : Reader F → Data F → Result (ParsedMessage F)
  route_public reader msg = do
    channel ← channel_of msg
    content ← data_of msg
    key ← hashable channel
    let mark = first content >>= λ e. decode_mark_price reader e
    let funding = first content >>= λ e. decode_funding_rate reader e
    if is_false content
        then ok (ignored msg)
        else if is_text key "mark-price"
        then (mark >>= λ d. ok (channel_message "mark-price" d))
        else if is_text key "funding-rate"
        then (funding >>= λ d. ok (channel_message "funding-rate" d))
        else ok (ignored msg)

  abbrev pub or_route :
      (Data F → Result (ParsedMessage F)) → ParsedMessage F ⊎ Data F → Result (ParsedMessage F)
  or_route route (inl message) = ok message
  or_route route (inr msg) = route msg

  unfoldable pub parse_public : Reader F → String → Result (ParsedMessage F)
  parse_public reader raw = parse_envelope reader raw >>= or_route (route_public reader)

  abbrev is_op : Option (Data F) → Bool
  is_op op = is_text op "order" || is_text op "cancel-order"

  -- `code not in ("0", None)`
  abbrev pub refused : Option (Data F) → Bool
  refused none = false
  refused (some null) = false
  refused (some code) = not (is_text (some code) "0")

  -- `parse_private`, behind the envelope.
  unfoldable pub route_private : Data F → Result (ParsedMessage F)
  route_private msg = do
    event ← Data.get msg "event"
    code ← Data.get msg "code"
    op ← Data.get msg "op"
    let login = if is_text code "0" then channel_message "login" msg else failure msg
    let ack = record (channel_message "order_ack" msg) { is_error = refused code }
    let pushed = do
      channel ← channel_of msg
      content ← data_of msg
      let order = first content >>= λ d. ok (channel_message "orders" d)
      if not (is_text channel "orders") || is_false content then ok (ignored msg) else order
    if is_text event "login" then ok login else if is_op op then ok ack else pushed

  unfoldable pub parse_private : Reader F → String → Result (ParsedMessage F)
  parse_private reader raw = parse_envelope reader raw >>= or_route route_private
