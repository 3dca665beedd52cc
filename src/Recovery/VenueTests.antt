-- ===== src/Recovery/VenueTests.antt =====
-- The theorems on the reconciliation with the venue (hobo/log/recovery.py) at concrete inputs.
use hobo.Prelude.{ℕ, String, ◌≡◌, refl, some, List, [], ◌∷◌, All, Result, ok, returned}
use hobo.Prelude.Dict
use hobo.Float.Int.{int_num, ℤ, pos}
use hobo.Risk.Model.{ContractSpec, Instrument}
use hobo.Risk.State.{State}
use hobo.Risk.Tests.{desk_state, swap}
use hobo.Recovery.{
  Warning, instrument_spec_drift, mark_stale, reconcile_instrument, reconcile_mark_freshness,
  spec_eq, spec_diff, set_instrument, seed_mark,
}
use hobo.Recovery.Specs.{adopted, reconcile_instrument-adopts}
use hobo.Recovery.Marks.{HasMark, reconcile_mark_freshness-fresh}

-- The venue has another lot size.
abbrev venue_spec : ContractSpec ℤ
venue_spec = record swap.spec { lot_sz = pos 9 }

abbrev venue : String → Result (ContractSpec ℤ)
venue iid = ok venue_spec

abbrev drifted : State ℤ
drifted = set_instrument desk_state "SWAP" (record swap { spec = venue_spec })

abbrev drift : List (Warning ℤ)
drift = instrument_spec_drift "SWAP" (spec_diff swap.spec venue_spec) ∷ []

spec_adopted : reconcile_instrument venue desk_state desk_state.instruments ≡ returned drift drifted
unfolding reconcile_instrument spec_eq
spec_adopted = refl

reconcile_instrument-adopts_example :
    All
      (λ (e : String × Instrument ℤ).
        (fresh : ContractSpec ℤ) × (venue e.0 ≡ ok fresh)
        × (Dict.get drifted.instruments e.0 ≡ some (adopted e.1 fresh)))
      desk_state.instruments
reconcile_instrument-adopts_example =
    reconcile_instrument-adopts venue desk_state drifted drift (tt, tt) spec_adopted

-- Six seconds after the last mark.
abbrev now : ℕ
now = 6000000007

abbrev market : String → Result (ℤ × ℕ)
market iid = ok (pos 115, 6000000000)

abbrev marked : State ℤ
marked = seed_mark desk_state "SWAP" (pos 115, 6000000000)

abbrev stale : List (Warning ℤ)
stale = mark_stale "SWAP" (some 6000000000) (pos 115) ∷ []

mark_fetched :
    reconcile_mark_freshness market now desk_state desk_state.instruments ≡ returned stale marked
unfolding reconcile_mark_freshness Dict.get
mark_fetched = refl

reconcile_mark_freshness-fresh_example :
    All (λ (e : String × Instrument ℤ). HasMark market now marked e.0) desk_state.instruments
reconcile_mark_freshness-fresh_example =
    reconcile_mark_freshness-fresh market now desk_state marked stale mark_fetched
