-- ===== src/Core/Bridge/Guards.antt =====
-- What the bridge lets through to the gateway.
use hobo.Prelude.{
  ℕ, String, ◌≡◌, refl, ◌⊎◌, inl, inr, Bool, true, false, Bool-cases, some, Option-cases, List,
}
use hobo.Float.{Num, ◌≤?◌}
use hobo.Risk.Model.{Side}
use hobo.Risk.Gate.{RiskCheck}
use hobo.Log.Event.{LogEvent}
use hobo.Log.Format.{Codec}
use hobo.Core.Gateway.{OrderGateway}
use hobo.Core.Bridge.{side_named, forward, bridge_place}

module _ {F : Type 0} ⦃n : Num F⦄ (codec : Codec (LogEvent F)) (checks : List (RiskCheck F)) where
  -- A manual order reaches the gateway only where the engine runs, the side is BUY or SELL in whatever
  -- case, and the quantity is not zero or less; otherwise the gateway is as it was.
  pub bridge_place-guards :
      (running : Bool) (g : OrderGateway F) (book_id instrument_id side : String) (qty : F)
      (t₀ t₁ t₂ : ℕ)
      → ((bridge_place codec checks running g book_id instrument_id side qty t₀ t₁ t₂).0 ≡ g)
        ⊎ (running ≡ true)
          × ((qty ≤? n.zero_f) ≡ false)
          × ((s : Side) × (side_named side ≡ some s)
              × (bridge_place codec checks running g book_id instrument_id side qty t₀ t₁ t₂
                  ≡ forward codec checks g book_id instrument_id s qty t₀ t₁ t₂))
  unfolding bridge_place
  bridge_place-guards false g book_id instrument_id side qty t₀ t₁ t₂ = inl refl
  bridge_place-guards true g book_id instrument_id side qty t₀ t₁ t₂ =
      elim (Option-cases (side_named side)) [
        | inl e ↦ inl (rw (e, bridge_place) refl)
        | inr (s, e) ↦ elim (Bool-cases (qty ≤? n.zero_f)) [
          | inl z ↦ inl (rw (e, bridge_place) (rw z refl))
          | inr p ↦ inr (refl, p, (s, e, rw (e, bridge_place) (rw p refl)))
        ]
      ]
