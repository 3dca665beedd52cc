-- ===== src/Log/Event.antt =====
-- hobo/log/events.py: the payload of each event type, and the envelope that the log persists.
use hobo.Prelude.{ℕ, String, Bool, true, false, Option}
use hobo.Prelude.Dict.{Dict}
use hobo.Prelude.Data.{Data}

-- What `detail` holds is any data: numbers, texts, nested dictionaries, `None`.
-- A field that the fold reads by `p.get(...)` is an `Option`: a log may predate it.
pub record Fill (F : Type 0) : Type 0 where
  pub order_id : String
  pub book_id : String
  pub instrument_id : String
  pub side : String
  pub qty : F
  pub fill_price : F
  pub fee : Option F
  pub trade_id : Option String

pub record LimitChange (F : Type 0) : Type 0 where
  pub scope : String
  pub field : String
  pub old : F
  pub new : F
  pub book_id : Option String

pub record KillSwitch : Type 0 where
  pub scope : String
  pub id : String
  pub enabled : Bool
  pub reason : Option String

pub record OrderRequest (F : Type 0) : Type 0 where
  pub order_id : String
  pub book_id : String
  pub instrument_id : String
  pub side : String
  pub qty : F
  pub order_type : String

pub record GateDecisionLog (F : Type 0) : Type 0 where
  pub order_id : String
  pub book_id : String
  pub approved : Bool
  pub reason : String
  pub detail : Dict (Data F)

pub record ReconciliationWarning (F : Type 0) : Type 0 where
  pub kind : String
  pub detail : Dict (Data F)

-- An event type with its payload. `unknown` is a type that the schema does not have.
pub data LogEvent (F : Type 0) : Type 0 where
  mark_update : String → F → ℕ → LogEvent F
  funding_update : String → F → ℕ → LogEvent F
  fill : Fill F → LogEvent F
  limit_change : LimitChange F → LogEvent F
  kill_switch : KillSwitch → LogEvent F
  order_request : OrderRequest F → LogEvent F
  gate_decision : GateDecisionLog F → LogEvent F
  reconciliation_warning : ReconciliationWarning F → LogEvent F
  unknown : String → LogEvent F

-- The event stands for the envelope's type and payload.
pub record Envelope (E : Type 0) : Type 0 where
  pub seq : ℕ
  pub ts_ns : ℕ
  pub event : E

-- `STATE_MUTATING_EVENT_TYPES`
abbrev pub state_mutating : {F : Type 0} → LogEvent F → Bool
state_mutating (mark_update iid price ts) = true
state_mutating (funding_update iid rate time) = true
state_mutating (fill p) = true
state_mutating (limit_change p) = true
state_mutating (kill_switch p) = true
state_mutating _ = false
