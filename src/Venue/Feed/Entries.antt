-- ===== src/Venue/Feed/Entries.antt =====
-- What the entries of the channels of hobo/adapters/okx lead to.
use Prim.Native.Nat.{◌*◌}
use mathlib.Core.Path.{subst}
use hobo.Prelude.{
  ℕ, String, true, Option, none, some, List, [], ◌∷◌, ◌≡◌, refl, sym, ap, ◌⊎◌, inl, inr,
  Result-cases, ok, bind-eq-ok, ok-injective, ◌>>=◌,
}
use hobo.Prelude.Dict
use hobo.Prelude.Data.{Data, find, item, text_of, float_of, int_of}
use hobo.Float.{Num}
use hobo.Core.Event.{Event, mark_event, funding_event}
use hobo.Venue.Socket.{ParsedMessage, dispatch}
use hobo.Venue.Parsing.{
  Reader, terminal, failure, channel_message, is_text, first, milliseconds, decode_mark_price,
  decode_funding_rate, channel_of, data_of,
}
use hobo.Venue.Feed.{on_mark, on_funding, handlers, call}

module _ {F : Type 0} ⦃n : Num F⦄ (reader : Reader F) where
  -- The event of an entry of the `mark-price` channel, and of one of the `funding-rate` channel.
  abbrev pub MarkOf : Data F → Event F → Type 0
  MarkOf entry event =
      (iid : String) × (price : F) × (ms : ℕ) × (item entry "instId" >>= text_of ≡ ok iid)
      × (item entry "markPx" >>= reader.float_from ≡ ok price)
      × (item entry "ts" >>= reader.int_from ≡ ok ms)
      × (event ≡ mark_event iid price (ms * 1000000))

  abbrev pub FundingOf : Data F → Event F → Type 0
  FundingOf entry event =
      (iid : String) × (rate : F) × (time : ℕ) × (ms : ℕ) × (item entry "instId" >>= text_of
        ≡ ok iid)
      × (item entry "fundingRate" >>= reader.float_from ≡ ok rate)
      × (item entry "fundingTime" >>= reader.int_from ≡ ok time)
      × (item entry "ts" >>= reader.int_from ≡ ok ms)
      × (event ≡ funding_event iid rate (time * 1000000) (ms * 1000000))

  -- The first entry of the data of a frame of the channel.
  abbrev pub EntryOf : String → String → Data F → Type 0
  EntryOf raw channel entry =
      (msg : Data F) × (key : Option (Data F)) × (reader.loads raw ≡ some msg)
      × (channel_of msg ≡ ok key)
      × (is_text key channel ≡ true)
      × (data_of msg >>= first ≡ ok entry)

  -- Nothing, or the one event that such an entry makes.
  abbrev pub Published : (String → Data F → Type 0) → List (Event F) → Type 0
  Published P es =
      (es ≡ [])
      ⊎ ((entry : Data F) × (event : Event F) × (es ≡ event ∷ [])
          × ((P "mark-price" entry × MarkOf entry event)
              ⊎ (P "funding-rate" entry × FundingOf entry event)))

  -- A message that leads to such events.
  abbrev pub Leads : (String → Data F → Type 0) → ParsedMessage F → Type 0
  Leads P m = (es : List (Event F)) × (call (dispatch handlers m) m ≡ ok es) × Published P es

  milliseconds-ok :
      (entry : Data F) (key : String) (t : ℕ)
      → milliseconds reader entry key ≡ ok t
      → (ms : ℕ) × (item entry key >>= reader.int_from ≡ ok ms) × (t ≡ ms * 1000000)
  milliseconds-ok entry key t h = elim (Result-cases (item entry key)) [
    | inr (x, e) ↦ cc (rw e at h)
    | inl (v, e) ↦ elim (Result-cases (reader.int_from v)) [
      | inr (x, f) ↦ cc (rw (e, f) at h)
      | inl (ms, f) ↦ (ms, rw (e, f) refl, sym (ok-injective (rw (e, f) at h)))
    ]
  ]

  pub mark-Leads :
      (P : String → Data F → Type 0) (entry d : Data F)
      → P "mark-price" entry
      → decode_mark_price reader entry ≡ ok d
      → Leads P (channel_message "mark-price" d)
  unfolding decode_mark_price dispatch Dict.get on_mark item find text_of float_of int_of
  mark-Leads P entry d from h =
      let (iid, i, h₁) = bind-eq-ok (item entry "instId" >>= text_of) _ h in
      let (price, p, h₂) = bind-eq-ok (item entry "markPx" >>= reader.float_from) _ h₁ in
      let (t, q, h₃) = bind-eq-ok (milliseconds reader entry "ts") _ h₂ in
      let (ms, m, e) = milliseconds-ok entry "ts" t q in
      let event = mark_event iid price t in
      subst (λ c. Leads P (channel_message "mark-price" c)) (ok-injective h₃)
        (
          event ∷ [],
          refl,
          inr (
            entry,
            event,
            refl,
            inl (from, (iid, price, ms, i, p, m, ap (mark_event iid price) e)),
          ),
        )

  pub funding-Leads :
      (P : String → Data F → Type 0) (entry d : Data F)
      → P "funding-rate" entry
      → decode_funding_rate reader entry ≡ ok d
      → Leads P (channel_message "funding-rate" d)
  unfolding decode_funding_rate dispatch Dict.get on_funding item find text_of float_of int_of
  funding-Leads P entry d from h =
      let (iid, i, h₁) = bind-eq-ok (item entry "instId" >>= text_of) _ h in
      let (rate, r, h₂) = bind-eq-ok (item entry "fundingRate" >>= reader.float_from) _ h₁ in
      let (u, q, h₃) = bind-eq-ok (milliseconds reader entry "fundingTime") _ h₂ in
      let (t, k, h₄) = bind-eq-ok (milliseconds reader entry "ts") _ h₃ in
      let (time, v, f) = milliseconds-ok entry "fundingTime" u q in
      let (ms, m, e) = milliseconds-ok entry "ts" t k in
      let event = funding_event iid rate u t in
      subst (λ c. Leads P (channel_message "funding-rate" c)) (ok-injective h₄)
        (
          event ∷ [],
          refl,
          inr (
            entry,
            event,
            refl,
            inr (from, (iid, rate, time, ms, i, r, v, m, λ j. funding_event iid rate (f j) (e j))),
          ),
        )

  pub quiet :
      (P : String → Data F → Type 0) (m : ParsedMessage F)
      → dispatch (handlers {F = F}) m ≡ none
      → Leads P m
  quiet P m h = ([], ap (λ c. call c m) h, inl refl)

  pub control-Leads :
      (P : String → Data F → Type 0) (key : String) (c : Option (Data F)) → Leads P (terminal key c)
  unfolding dispatch
  control-Leads P key c = quiet P (terminal key c) refl

  pub failure-Leads : (P : String → Data F → Type 0) (msg : Data F) → Leads P (failure msg)
  unfolding dispatch
  failure-Leads P msg = quiet P (failure msg) refl
