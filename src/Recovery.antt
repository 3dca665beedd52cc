-- ===== src/Recovery.antt =====
-- hobo/log/recovery.py: the state after a restart, from the newest snapshot and the log. The
-- snapshot that was loaded (hobo/log/snapshot.py and `State.from_dict`) is an argument, as are the
-- venue's answers and the clock.
pub mod Resume
pub mod History
pub mod Failed
pub mod Restart
pub mod Roster
pub mod Specs
pub mod Marks
pub mod Tests
pub mod VenueTests
pub mod RestartTests
use Prim.Native.Nat.{◌+◌, ◌-◌}
use hobo.Prelude.{
  ℕ, String, Bool, true, false, Option, none, some, List, [], ◌∷◌, ◌++◌, ltb, leb, str_eq,
  if◌then◌else◌, Result, ok, err, Outcome, returned, raised, Bytes, not, ◌&&◌,
}
use hobo.Prelude.Dict
use hobo.Prelude.Dict.{Dict}
use hobo.Float.{Num, ◌==◌}
use hobo.Risk.Model.{
  Limits, Position, Book, Desk, new_book, ContractSpec, Instrument, from_spec, Value, text, number,
}
use hobo.Risk.State.{State}
use hobo.Risk.Fold.{set_books, apply_event}
use hobo.Log.Event.{LogEvent, Envelope}
use hobo.Log.Format.{Codec, replay}

abbrev pub mark_staleness_threshold_ns : ℕ
mark_staleness_threshold_ns = 5000000000

-- A `ReconciliationWarning` of the recovery, by its kind.
pub data Warning (F : Type 0) : Type 0 where
  book_added : String → Warning F
  book_not_in_seed : String → List (String × F) → Warning F
  instrument_spec_drift : String → Dict (Value F × Value F) → Warning F
  mark_stale : String → Option ℕ → F → Warning F

abbrev pub is_fresh : Option ℕ → ℕ → Bool
is_fresh none now = false
is_fresh (some last_ts) now = leb now (last_ts + mark_staleness_threshold_ns)

abbrev pub age_of : Option ℕ → ℕ → Option ℕ
age_of none now = none
age_of (some last_ts) now = some (now - last_ts)

module _ {F : Type 0} ⦃n : Num F⦄ where
  -- The loop of `recover_state` over the log: what the snapshot holds is passed over.
  unfoldable pub replay_tail : State F → ℕ → List (Envelope (LogEvent F)) → Outcome (State F) ℕ
  replay_tail state replayed [] = returned replayed state
  replay_tail state replayed (envelope ∷ envelopes) =
      let passed_over = replay_tail state replayed envelopes in
      let applied : Outcome (State F) ℕ = elim (apply_event state envelope) [
        | raised e s ↦ raised e s
        | returned _ s ↦ replay_tail s (replayed + 1) envelopes
      ] in
      if ltb state.last_seq envelope.seq then applied else passed_over

  abbrev pub start_state : Option (State F) → State F → State F
  start_state none fresh = fresh
  start_state (some snapshot) fresh = snapshot

  -- `recover_state` up to the reconciliation: the state, and the number of events replayed.
  unfoldable pub recover_state :
      Codec (LogEvent F) → Option (State F) → State F → Bytes → Outcome (State F) ℕ
  recover_state codec snapshot fresh log = elim (replay codec log) [
    | err e ↦ raised e (start_state snapshot fresh)
    | ok envelopes ↦ replay_tail (start_state snapshot fresh) 0 envelopes
  ]

  -- The loops of `_reconcile_books`.
  unfoldable pub onboard :
      Dict (Book F) → List (String × Limits F) → Dict (Book F) × List (Warning F)
  onboard books [] = (books, [])
  onboard books ((book_id, limits) ∷ specs) =
      let known = onboard books specs in
      let (added, warnings) = onboard (Dict.set books book_id (new_book book_id limits)) specs in
      if Dict.has books book_id then known else (added, book_added book_id ∷ warnings)

  abbrev pub in_seed : String → List (String × Limits F) → Bool
  in_seed book_id [] = false
  in_seed book_id ((id, limits) ∷ specs) = if str_eq id book_id then true else in_seed book_id specs

  abbrev pub open_positions : Dict (Position F) → List (String × F)
  open_positions [] = []
  open_positions ((iid, p) ∷ positions) =
      if p.qty == n.zero_f
      then open_positions positions
      else (iid, p.qty) ∷ open_positions positions

  unfoldable pub dropped_books : List (String × Limits F) → Dict (Book F) → List (Warning F)
  dropped_books specs [] = []
  dropped_books specs ((book_id, book) ∷ books) =
      let rest = dropped_books specs books in
      if in_seed book_id specs
      then rest
      else book_not_in_seed book_id (open_positions book.positions) ∷ rest

  unfoldable pub reconcile_books : State F → List (String × Limits F) → State F × List (Warning F)
  reconcile_books state specs =
      let (books, warnings) = onboard state.desk.books specs in
      (set_books state books, warnings ++ dropped_books specs books)

  -- The warning of an entry, in front of those of the entries behind it.
  abbrev warned :
      Warning F → Outcome (State F) (List (Warning F)) → Outcome (State F) (List (Warning F))
  warned warning (returned warnings state) = returned (warning ∷ warnings) state
  warned warning (raised e state) = raised e state

  -- `fresh == current`, and the fields in which they differ.
  unfoldable pub spec_eq : ContractSpec F → ContractSpec F → Bool
  spec_eq a b =
      str_eq a.instrument_id b.instrument_id
      && ((a.ct_val == b.ct_val)
          && (str_eq a.ct_val_ccy b.ct_val_ccy
              && ((a.ct_mult == b.ct_mult)
                  && ((a.tick_sz == b.tick_sz)
                      && ((a.lot_sz == b.lot_sz)
                          && ((a.min_sz == b.min_sz)
                              && ((a.max_leverage == b.max_leverage)
                                  && (str_eq a.settle_ccy b.settle_ccy
                                      && str_eq a.contract_type b.contract_type))))))))

  abbrev text_diff : String → String → String → Dict (Value F × Value F) → Dict (Value F × Value F)
  text_diff name a b rest = if str_eq a b then rest else (name, (text a, text b)) ∷ rest

  abbrev number_diff : String → F → F → Dict (Value F × Value F) → Dict (Value F × Value F)
  number_diff name a b rest = if a == b then rest else (name, (number a, number b)) ∷ rest

  unfoldable pub spec_diff : ContractSpec F → ContractSpec F → Dict (Value F × Value F)
  spec_diff a b = text_diff "instrument_id" a.instrument_id b.instrument_id (
      number_diff "ct_val" a.ct_val b.ct_val (
        text_diff "ct_val_ccy" a.ct_val_ccy b.ct_val_ccy (
          number_diff "ct_mult" a.ct_mult b.ct_mult (
            number_diff "tick_sz" a.tick_sz b.tick_sz (
              number_diff "lot_sz" a.lot_sz b.lot_sz (
                number_diff "min_sz" a.min_sz b.min_sz (
                  number_diff "max_leverage" a.max_leverage b.max_leverage (
                    text_diff "settle_ccy" a.settle_ccy b.settle_ccy
                      (text_diff "contract_type" a.contract_type b.contract_type [])))))))))

  abbrev pub set_instrument : State F → String → Instrument F → State F
  set_instrument state iid instrument = record state {
    instruments = Dict.set state.instruments iid instrument;
  }

  -- `_reconcile_instrument`, over the instruments that are left: `fetch_contract_spec` is the venue's.
  unfoldable pub reconcile_instrument :
      (String → Result (ContractSpec F))
      → State F
      → Dict (Instrument F)
      → Outcome (State F) (List (Warning F))
  reconcile_instrument fetch_contract_spec state [] = returned [] state
  reconcile_instrument fetch_contract_spec state ((iid, instrument) ∷ instruments) =
      elim (fetch_contract_spec iid) [
        | err e ↦ raised e state
        | ok fresh ↦
            let kept = reconcile_instrument fetch_contract_spec state instruments in
            let replaced = warned (instrument_spec_drift iid (spec_diff instrument.spec fresh)) (
              reconcile_instrument fetch_contract_spec
                (set_instrument state iid (from_spec fresh instrument.maintenance_margin_rate))
                instruments) in
            if spec_eq fresh instrument.spec then kept else replaced
      ]

  -- `_reconcile_mark_freshness`, over the instruments that are left: `fetch_mark` is the venue's.
  abbrev pub seed_mark : State F → String → F × ℕ → State F
  seed_mark state iid (price, ts_ns) = record state {
    marks = Dict.set state.marks iid price;
    mark_ts_ns = Dict.set state.mark_ts_ns iid ts_ns;
  }

  unfoldable pub reconcile_mark_freshness :
      (String → Result (F × ℕ))
      → ℕ
      → State F
      → Dict (Instrument F)
      → Outcome (State F) (List (Warning F))
  reconcile_mark_freshness fetch_mark now state [] = returned [] state
  reconcile_mark_freshness fetch_mark now state ((iid, instrument) ∷ instruments) =
      let last_ts = Dict.get state.mark_ts_ns iid in
      let kept = reconcile_mark_freshness fetch_mark now state instruments in
      let fetched : Outcome (State F) (List (Warning F)) = elim (fetch_mark iid) [
        | err e ↦ raised e state
        | ok mark ↦
            warned (mark_stale iid (age_of last_ts now) mark.0)
              (reconcile_mark_freshness fetch_mark now (seed_mark state iid mark) instruments)
      ] in
      if is_fresh last_ts now then kept else fetched

  -- The three steps of the reconciliation, each where its argument is given.
  abbrev reconcile_specs :
      Option (String → Result (ContractSpec F)) → State F → Outcome (State F) (List (Warning F))
  reconcile_specs none state = returned [] state
  reconcile_specs (some fetch_contract_spec) state =
      reconcile_instrument fetch_contract_spec state state.instruments

  abbrev reconcile_marks :
      Option (String → Result (F × ℕ)) → ℕ → State F → Outcome (State F) (List (Warning F))
  reconcile_marks none now state = returned [] state
  reconcile_marks (some fetch_mark) now state =
      reconcile_mark_freshness fetch_mark now state state.instruments

  abbrev reconcile_roster : Option (List (String × Limits F)) → State F → State F × List (Warning F)
  reconcile_roster none state = (state, [])
  reconcile_roster (some specs) state = reconcile_books state specs

  -- The reconciliation of `recover_state`.
  unfoldable pub reconcile :
      Option (List (String × Limits F))
      → Option (String → Result (ContractSpec F))
      → Option (String → Result (F × ℕ))
      → ℕ
      → State F
      → Outcome (State F) (List (Warning F))
  reconcile specs reference market now state =
      let (with_books, books) = reconcile_roster specs state in
      elim (reconcile_specs reference with_books) [
        | raised e s ↦ raised e s
        | returned drifts s ↦ elim (reconcile_marks market now s) [
          | raised e t ↦ raised e t
          | returned stale t ↦ returned (books ++ (drifts ++ stale)) t
        ]
      ]
