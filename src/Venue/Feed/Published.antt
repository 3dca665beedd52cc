-- ===== src/Venue/Feed/Published.antt =====
-- What hobo/adapters/okx publishes for a frame.
use mathlib.Core.Path.{subst}
use hobo.Prelude.{
  String, true, false, Option, none, some, List, ◌≡◌, refl, ap, ◌∙◌, inl, inr, Bool-cases,
  Option-cases, str_eq, Result, Result-cases, ok, bind-eq-ok, ok-injective, ◌>>=◌,
}
use hobo.Prelude.Data
use hobo.Prelude.Data.{
  Data, null, boolean, int, float, text, array, object, field, end, find, item, text_of, float_of,
  int_of,
}
use hobo.Float.{Num}
use hobo.Core.Event.{Event}
use hobo.Venue.Socket.{ParsedMessage, dispatch}
use hobo.Venue.Parsing.{
  Reader, terminal, channel_message, is_text, hashable, first, envelope_of, parse_envelope,
  decode_mark_price, decode_funding_rate, is_false, channel_of, data_of, route_public, or_route,
  parse_public,
}
use hobo.Venue.Feed.{receive}
use hobo.Venue.Feed.Entries.{
  EntryOf, Published, Leads, mark-Leads, funding-Leads, quiet, control-Leads, failure-Leads,
}

module _ {F : Type 0} ⦃n : Num F⦄ (reader : Reader F) where
  -- Where the first entry can be decoded, the message that it becomes leads to events.
  decoded-Leads :
      (P : String → Data F → Type 0) (key : String) (content : Data F)
      (decode : Data F → Result (Data F)) (m : ParsedMessage F)
      → ((entry : Data F) → first content ≡ ok entry → P key entry)
      → ((entry d : Data F)
          → P key entry
          → decode entry ≡ ok d
          → Leads reader P (channel_message key d))
      → first content >>= decode >>= (λ d. ok (channel_message key d)) ≡ ok m
      → Leads reader P m
  decoded-Leads P key content decode m from leads h = elim (Result-cases (first content)) [
    | inr (x, e) ↦ cc (rw e at h)
    | inl (entry, e) ↦ elim (Result-cases (decode entry)) [
      | inr (x, f) ↦ cc (rw (e, f) at h)
      | inl (d, f) ↦
          subst (Leads reader P) (ok-injective (rw (e, f) at h)) (leads entry d (from entry e) f)
    ]
  ]

  hashable-ok : (v k : Option (Data F)) → hashable v ≡ ok k → v ≡ k
  hashable-ok none k h = ok-injective h
  hashable-ok (some null) k h = ok-injective h
  hashable-ok (some (boolean b)) k h = ok-injective h
  hashable-ok (some (int n)) k h = ok-injective h
  hashable-ok (some (float x)) k h = ok-injective h
  hashable-ok (some (text t)) k h = ok-injective h
  hashable-ok (some (array items)) k h = cc h
  hashable-ok (some (object fields)) k h = cc h

  route-Leads :
      (raw : String) (msg : Data F) (m : ParsedMessage F)
      → reader.loads raw ≡ some msg
      → route_public reader msg ≡ ok m
      → Leads reader (EntryOf reader raw) m
  unfolding route_public
  route-Leads raw msg m loaded h =
      let (channel, c, h₁) = bind-eq-ok (channel_of msg) _ h in
      let (content, d, h₂) = bind-eq-ok (data_of msg) _ h₁ in
      let (key, k, h₃) = bind-eq-ok (hashable channel) _ h₂ in
      let named : channel_of msg ≡ ok key = c ∙ ap ok (hashable-ok channel key k) in
      let from : (name : String)
          → is_text key name ≡ true
          → (entry : Data F) → first content ≡ ok entry
          → EntryOf reader raw name entry =
        λ name q entry f. (msg, key, loaded, named, q, rw d f) in
      elim (Bool-cases (is_false content)) [
        | inl e ↦
            subst (Leads reader (EntryOf reader raw)) (ok-injective (rw e at h₃))
              (control-Leads reader (EntryOf reader raw) "ignored" (some msg))
        | inr e ↦ elim (Bool-cases (is_text key "mark-price")) [
          | inl f ↦
              decoded-Leads (EntryOf reader raw) "mark-price" content (decode_mark_price reader) m
                (from "mark-price" f) (mark-Leads reader (EntryOf reader raw)) (rw (e, f) at h₃)
          | inr f ↦ elim (Bool-cases (is_text key "funding-rate")) [
            | inl g ↦
                decoded-Leads (EntryOf reader raw) "funding-rate" content
                  (decode_funding_rate reader) m (from "funding-rate" g)
                  (funding-Leads reader (EntryOf reader raw)) (rw (e, f, g) at h₃)
            | inr g ↦
                subst (Leads reader (EntryOf reader raw)) (ok-injective (rw (e, f, g) at h₃))
                  (control-Leads reader (EntryOf reader raw) "ignored" (some msg))
          ]
        ]
      ]

  envelope-Leads :
      (raw : String) (msg : Data F) (event : Option (Data F)) (m : ParsedMessage F)
      → reader.loads raw ≡ some msg
      → or_route (route_public reader) (envelope_of msg event) ≡ ok m
      → Leads reader (EntryOf reader raw) m
  envelope-Leads raw msg event m loaded h = elim (Bool-cases (is_text event "error")) [
    | inl e ↦
        subst (Leads reader (EntryOf reader raw)) (ok-injective (rw e at h))
          (failure-Leads reader (EntryOf reader raw) msg)
    | inr e ↦ elim (Bool-cases (is_text event "subscribe")) [
      | inl f ↦
          subst (Leads reader (EntryOf reader raw)) (ok-injective (rw (e, f) at h))
            (control-Leads reader (EntryOf reader raw) "subscribe_ack" (some msg))
      | inr f ↦ route-Leads raw msg m loaded (rw (e, f) at h)
    ]
  ]

  parse-Leads :
      (raw : String) (m : ParsedMessage F)
      → parse_public reader raw ≡ ok m
      → Leads reader (EntryOf reader raw) m
  unfolding parse_public parse_envelope dispatch
  parse-Leads raw m h = elim (Bool-cases (str_eq raw "pong")) [
    | inl p ↦ subst (Leads reader (EntryOf reader raw)) (ok-injective (rw p at h)) (
        quiet reader (EntryOf reader raw)
          (record (terminal "pong" none) { is_heartbeat = true; is_control = false }) refl)
    | inr p ↦ elim (Option-cases (reader.loads raw)) [
      | inl e ↦ subst (Leads reader (EntryOf reader raw)) (ok-injective (rw (p, e) at h)) (
          control-Leads reader (EntryOf reader raw) "ignored"
            (some (object (field "unparsed" (text raw) end))))
      | inr (msg, e) ↦ elim (Result-cases (Data.get msg "event")) [
        | inr (x, f) ↦ cc (rw (p, e, f) at h)
        | inl (event, f) ↦ envelope-Leads raw msg event m e (rw (p, e, f) at h)
      ]
    ]
  ]

  -- The feed is read as it is written: where `parse_public` accepts a frame, its handling raises
  -- nothing, and publishes nothing or one event: a mark of the first entry of a frame whose channel is
  -- `mark-price`, a funding of that of one whose channel is `funding-rate`, with the instrument, the
  -- value and the times that the entry gives, the times in nanoseconds for the venue's milliseconds.
  pub receive-Published :
      (raw : String) (m : ParsedMessage F)
      → parse_public reader raw ≡ ok m
      → (es : List (Event F)) × (receive reader raw ≡ ok es)
        × Published reader (EntryOf reader raw) es
  unfolding receive
  receive-Published raw m h =
      let (es, called, published) = parse-Leads raw m h in (es, rw h called, published)
