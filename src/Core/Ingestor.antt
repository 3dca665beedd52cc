-- ===== src/Core/Ingestor.antt =====
-- hobo/core/fill_ingestor.py: the admission of fills, once per trade id. `published` lists the
-- calls of the publish callback.
pub mod Once
use Prim.Native.Nat.{◌+◌}
use hobo.Prelude.{
  ℕ, String, Bool, true, false, Option, none, some, List, [], ◌∷◌, ◌++◌, ltb, str_eq, if◌then◌else◌,
  ◌&&◌, not,
}
use hobo.Log.Event.{Fill, LogEvent, fill, Envelope}
use hobo.Core.Event.{FillEvent}

-- `x in s` of a set of strings, which is the list of what was added.
abbrev pub member : String → List String → Bool
member x [] = false
member x (y ∷ ys) = if str_eq y x then true else member x ys

-- A string that is not empty is true.
abbrev pub truthy : String → Bool
truthy s = not (str_eq s "")

pub record FillIngestor (F : Type 0) : Type 0 where
  pub seen : List String
  pub last_fill_ns : ℕ
  pub published : List (FillEvent F)

module _ {F : Type 0} where
  abbrev pub new_ingestor : FillIngestor F
  new_ingestor = record { seen = []; last_fill_ns = 0; published = [] }

  -- A fill of the log, for its trade id and its time.
  abbrev pub seed_fill : FillIngestor F → Option String → ℕ → FillIngestor F
  seed_fill g none ts_ns = g
  seed_fill g (some trade_id) ts_ns =
      if truthy trade_id
      then record g {
        seen = trade_id ∷ g.seen;
        last_fill_ns = if ltb g.last_fill_ns ts_ns then ts_ns else g.last_fill_ns;
      }
      else g

  -- `payload.get("trade_id")` of a fill; no other event has an effect.
  abbrev pub trade_id_of : LogEvent F → Option String
  trade_id_of (fill p) = p.trade_id
  trade_id_of _ = none

  -- `seed_from_log`, over what `replay` returns.
  unfoldable pub seed_from_log : FillIngestor F → List (Envelope (LogEvent F)) → FillIngestor F
  seed_from_log g [] = g
  seed_from_log g (envelope ∷ envelopes) =
      seed_from_log (seed_fill g (trade_id_of envelope.event) envelope.ts_ns) envelopes

  abbrev pub admit : FillIngestor F → FillEvent F → FillIngestor F
  admit g f = record g {
    seen = if truthy f.trade_id then f.trade_id ∷ g.seen else g.seen;
    published = g.published ++ f ∷ [];
  }

  unfoldable pub submit : FillIngestor F → FillEvent F → Bool × FillIngestor F
  submit g f =
      if truthy f.trade_id && member f.trade_id g.seen then (false, g) else (true, admit g f)

  -- Fills from any source, one after the other.
  unfoldable pub submit_all : FillIngestor F → List (FillEvent F) → FillIngestor F
  submit_all g [] = g
  submit_all g (f ∷ fs) = submit_all (submit g f).1 fs
