-- ===== src/Core/BookTests.antt =====
-- The theorems on the bridge, the views and the reconciler of hobo/core at concrete inputs, and
-- those on the fold of hobo/risk/fold.py that need a log.
use hobo.Prelude.{
  List, String, Option, ◌≡◌, ◌⊎◌, refl, true, false, returned, ok, none, some, [], ◌∷◌, after,
  raised, key_error, eq_iff, inl, arith,
}
use hobo.Prelude.Dict
use hobo.Float.{◌+◌, ◌≤?◌, sum_from, try_sum_from}
use hobo.Float.Int.{◌+ℤ◌, ◌-ℤ◌, ◌*ℤ◌, neg_ℤ, int_num, ℤ, pos}
use hobo.Risk.Math.{unrealized_pnl}
use hobo.Risk.State.{
  State, instrument_of, book_unrealized_pnl, book_realized_pnl, book_funding_pnl, book_fees_paid,
  book_total_pnl, desk_total_pnl,
}
use hobo.Risk.Fold.{
  apply_fill, fill_book, apply_event, handle, apply_mark, update_high_water_marks, raise_book_marks,
  raise_desk_mark,
}
use hobo.Risk.Gate.{default_checks}
use hobo.Risk.Tests.{desk_state, alpha, swap}
use hobo.Log.Event.{Envelope, LogEvent, fill}
use hobo.Float.Int.{negsuc, ℤ-IsExact}
use hobo.Risk.Model.{Side, Book, position_in}
use hobo.Core.Bridge.{side_named, forward, bridge_place}
use hobo.Core.Bridge.Guards.{bridge_place-guards}
use hobo.Core.Views.Gaps.{logged_patch, apply_event-patch_fill}
use hobo.Core.Ingestor.{member}
use hobo.Core.Reconciler.{
  ExchangeFill, fetch_new, attribute, first_owner, longest_first, insert_longest, all_digits,
}
use hobo.Core.Reconciler.Complete.{Among, here, fetch_new-Among}
use hobo.Core.Reconciler.Fetched.{IsMissing, AllNew, fetch_new-AllNew, owns, attribute-owns}
use hobo.Core.Tests.{gateway}
use hobo.Recovery.Tests.{mark_at, marks_only}

-- A fill of an instrument that is not known leaves its position behind when it raises.
abbrev stray : LogEvent ℤ
stray = fill (record {
  order_id = "ALPHA1";
  book_id = "ALPHA";
  instrument_id = "OTHER";
  side = "BUY";
  qty = pos 1;
  fill_price = pos 1;
  fee = none;
  trade_id = none;
})

abbrev stray_fill : Envelope (LogEvent ℤ)
stray_fill = record { seq = 5; ts_ns = 0; event = stray }

-- After it, a mark of a known instrument raises too: the book's PnL cannot be computed.
poisoned :
    (apply_event desk_state stray_fill
      ≡ raised key_error (after (apply_event desk_state stray_fill)))
    × (apply_event (after (apply_event desk_state stray_fill)) (mark_at 6)
        ≡ raised key_error
            (after (apply_event (after (apply_event desk_state stray_fill)) (mark_at 6))))
unfolding apply_event handle apply_fill fill_book apply_mark update_high_water_marks
    raise_book_marks raise_desk_mark desk_total_pnl book_total_pnl book_unrealized_pnl
    book_realized_pnl book_funding_pnl book_fees_paid sum_from try_sum_from ◌+ℤ◌ ◌-ℤ◌ ◌*ℤ◌ neg_ℤ
    unrealized_pnl Dict.get Dict.set
poisoned = (refl, refl)

-- An order by hand, in lower case.
bridge_place-guards_example :
    ((bridge_place marks_only
        (default_checks (pos 5))
        true
        gateway
        "ALPHA"
        "SWAP"
        "sell"
        (pos 3)
        7
        8
        9).0
      ≡ gateway)
    ⊎ (true ≡ true)
      × ((pos 3 ≤? pos 0) ≡ false)
      × ((s : Side) × (side_named "sell" ≡ some s)
          × (bridge_place marks_only
                (default_checks (pos 5))
                true
                gateway
                "ALPHA"
                "SWAP"
                "sell"
                (pos 3)
                7
                8
                9
              ≡ forward marks_only (default_checks (pos 5)) gateway "ALPHA" "SWAP" s (pos 3) 7 8 9))
bridge_place-guards_example =
    bridge_place-guards marks_only (default_checks (pos 5)) true gateway "ALPHA" "SWAP" "sell"
      (pos 3) 7 8 9

alpha_on_desk : Dict.get desk_state.desk.books "ALPHA" ≡ some alpha
unfolding Dict.get
alpha_on_desk = refl

swap_known : instrument_of desk_state "SWAP" ≡ ok swap
unfolding Dict.get
swap_known = refl

pnl_of_desk :
    (book_total_pnl desk_state alpha ≡ ok (pos 41)) × (desk_total_pnl desk_state ≡ ok (pos 41))
unfolding desk_total_pnl book_total_pnl book_unrealized_pnl book_realized_pnl book_funding_pnl
    book_fees_paid sum_from try_sum_from ◌+ℤ◌ ◌-ℤ◌ ◌*ℤ◌ neg_ℤ unrealized_pnl Dict.get
pnl_of_desk = (refl, refl)

apply_event-patch_fill_example :
    (s' : State ℤ) × (b' : Book ℤ) × (apply_event desk_state
        (logged_patch desk_state "RECON-1" "ALPHA" "SWAP" (negsuc 1) 5 9)
      ≡ returned tt s')
    × (Dict.get s'.desk.books "ALPHA" ≡ some b')
    × ((position_in b' "SWAP").qty ≡ (position_in alpha "SWAP").qty + negsuc 1)
apply_event-patch_fill_example =
    apply_event-patch_fill ℤ-IsExact desk_state "RECON-1" "ALPHA" "SWAP" (negsuc 1) 5 9 alpha swap
      (pos 41) (pos 41) alpha_on_desk swap_known pnl_of_desk.0 pnl_of_desk.1

abbrev reported : ExchangeFill ℤ
reported = record {
  trade_id = "T9";
  client_order_id = "ALPHA0000000001";
  instrument_id = "SWAP";
  side = "BUY";
  qty = pos 1;
  price = pos 110;
  fee = pos 0;
  ts_ns = 50;
  cursor = "";
}

-- The venue's one page, whatever cursor it is asked for.
abbrev one_page : Option String → List (ExchangeFill ℤ)
one_page cursor = reported ∷ []

fetch_new-AllNew_example : AllNew 40 ("T1" ∷ []) (fetch_new one_page 40 ("T1" ∷ []))
fetch_new-AllNew_example = fetch_new-AllNew one_page 40 ("T1" ∷ [])

missing : IsMissing 40 ("T1" ∷ []) reported
missing = record {
  recent = omega arith;
  named = λ e. cc ((eq_iff "T9" "").1 e);
  unseen = (λ e. cc ((eq_iff "T1" "T9").1 e), tt);
}

fetch_new-Among_example : Among reported (fetch_new one_page 40 ("T1" ∷ []))
fetch_new-Among_example =
    fetch_new-Among one_page 40 ("T1" ∷ []) (reported ∷ []) reported (here refl) (inl refl) missing

owner_found : attribute "ALPHA0000000001" ("BETA" ∷ "ALPHA" ∷ []) ≡ some "ALPHA"
unfolding attribute first_owner longest_first insert_longest all_digits
owner_found = refl

attribute-owns_example :
    (member "ALPHA" ("BETA" ∷ "ALPHA" ∷ []) ≡ true) × (owns "ALPHA0000000001" "ALPHA" ≡ true)
attribute-owns_example =
    attribute-owns "ALPHA0000000001" "ALPHA" ("BETA" ∷ "ALPHA" ∷ []) owner_found
