-- ===== src/Recovery/Tests.antt =====
-- A log of two marks: the theorems on hobo/log/recovery.py and hobo/replica at concrete inputs, on
-- the desk of the tests of hobo/risk.
use hobo.Prelude.{
  ℕ, String, ◌≡◌, refl, none, some, Option, List, [], ◌∷◌, ◌++◌, Bytes, pack, replicate, after,
  length, returned, arith,
}
use hobo.Prelude.Dict
use hobo.Float.{sum_from, try_sum_from}
use hobo.Float.Int.{◌+ℤ◌, ◌-ℤ◌, ◌*ℤ◌, neg_ℤ, int_num, ℤ, pos}
use hobo.Risk.Model.{Limits}
use hobo.Risk.Math.{unrealized_pnl}
use hobo.Risk.State.{
  State, book_unrealized_pnl, book_realized_pnl, book_funding_pnl, book_fees_paid, book_total_pnl,
  desk_total_pnl,
}
use hobo.Risk.Fold.{
  apply_event, handle, apply_mark, update_high_water_marks, raise_book_marks, raise_desk_mark,
}
use hobo.Risk.Tests.{desk_state, limits, alpha}
use hobo.Log.Event.{Envelope, LogEvent, mark_update}
use hobo.Log.Format.{Fits, Codec, pack_header}
use hobo.Log.Format.Frames.{encode_all}
use hobo.Log.Writer.{LogWriter, new_file}
use hobo.Log.Writer.Written.{Written}
use hobo.Replica.{ReplicaTail, fold_all, poll_once}
use hobo.Replica.Follows.{poll_once-folds}
use hobo.Recovery.{replay_tail, recover_state, reconcile_books}
use hobo.Recovery.Resume.{without_count, recover_state-snapshot}
use hobo.Recovery.Roster.{reconcile_books-keeps}

-- A log of mark updates, each of which is written as its sequence number.
abbrev pub mark_at : ℕ → Envelope (LogEvent ℤ)
mark_at seq = record { seq = seq; ts_ns = 0; event = mark_update "SWAP" (pos 120) 0 }

abbrev read_mark : Bytes → Option (Envelope (LogEvent ℤ))
read_mark (seq ∷ []) = some (mark_at seq)
read_mark _ = none

abbrev pub marks_only : Codec (LogEvent ℤ)
marks_only = record { dumps = λ e. e.seq ∷ []; loads = read_mark }

pub mark-Fits : (seq : ℕ) → Fits marks_only (mark_at seq)
mark-Fits seq = record { nonempty = omega arith; short = omega arith; readable = refl }

abbrev pub fresh_writer : LogWriter
fresh_writer = record {
  mm = new_file 64;
  growth_factor = 2;
  capacity = 64;
  committed_offset = 0;
  write_offset = 0;
  last_seq = 0;
  recovered_uncommitted_count = 0;
}

abbrev two_marks : LogWriter
two_marks = record fresh_writer {
  mm =
      pack_header 64 12 2 ++ (encode_all marks_only (mark_at 1 ∷ mark_at 2 ∷ []) ++ replicate 52 0);
  committed_offset = 12;
  write_offset = 12;
  last_seq = 2;
}

two_marks-Written : Written marks_only two_marks (mark_at 1 ∷ mark_at 2 ∷ []) []
unfolding encode_all pack
two_marks-Written = record {
  room = 52;
  mm_is = refl;
  room_is = refl;
  committed_is = refl;
  written_is = refl;
  seq_is = refl;
  all_fit = (mark-Fits 1, (mark-Fits 2, tt));
  numbered = (refl, (refl, tt));
  has_capacity = omega arith;
  grows = omega arith;
}

abbrev pub unfolded_desk : State ℤ
unfolded_desk = record desk_state { last_seq = 0 }

abbrev pub snapshot : State ℤ
snapshot = after (replay_tail unfolded_desk 0 (mark_at 1 ∷ []))

snapshot_taken : replay_tail unfolded_desk 0 (mark_at 1 ∷ []) ≡ returned 1 snapshot
unfolding replay_tail apply_event handle apply_mark update_high_water_marks raise_book_marks
    raise_desk_mark desk_total_pnl book_total_pnl book_unrealized_pnl book_realized_pnl
    book_funding_pnl book_fees_paid sum_from try_sum_from ◌+ℤ◌ ◌-ℤ◌ ◌*ℤ◌ neg_ℤ unrealized_pnl
    Dict.get Dict.set
snapshot_taken = refl

recover_state-snapshot_example :
    without_count (recover_state marks_only (some snapshot) unfolded_desk two_marks.mm)
    ≡ without_count (recover_state marks_only none unfolded_desk two_marks.mm)
recover_state-snapshot_example =
    recover_state-snapshot marks_only two_marks (mark_at 1 ∷ []) (mark_at 2 ∷ []) [] unfolded_desk
      snapshot 1 two_marks-Written (omega arith) refl snapshot_taken

abbrev roster : List (String × Limits ℤ)
roster = ("BETA", limits) ∷ []

reconcile_books-keeps_example :
    Dict.get (reconcile_books desk_state roster).0.desk.books "ALPHA" ≡ some alpha
unfolding Dict.get
reconcile_books-keeps_example = reconcile_books-keeps desk_state roster "ALPHA" alpha refl

-- A replica that has folded the first of the two marks; its map is too short for the second.
abbrev shadow : ReplicaTail ℤ
shadow = record { state = snapshot; mapped = 4100; folded_offset = 6 }

abbrev shadow_state : State ℤ
shadow_state = after (fold_all snapshot (mark_at 2 ∷ []))

shadow_folds : fold_all snapshot (mark_at 2 ∷ []) ≡ returned tt shadow_state
unfolding fold_all replay_tail apply_event handle apply_mark update_high_water_marks
    raise_book_marks raise_desk_mark desk_total_pnl book_total_pnl book_unrealized_pnl
    book_realized_pnl book_funding_pnl book_fees_paid sum_from try_sum_from ◌+ℤ◌ ◌-ℤ◌ ◌*ℤ◌ neg_ℤ
    unrealized_pnl Dict.get Dict.set
shadow_folds = refl

first_size : 6 ≡ length (encode_all marks_only (mark_at 1 ∷ []))
unfolding encode_all pack
first_size = refl

poll_once-folds_example :
    (r : ReplicaTail ℤ) × (poll_once marks_only shadow two_marks.mm ≡ returned 1 r)
    × (r.state ≡ shadow_state)
    × (r.folded_offset ≡ 12)
poll_once-folds_example =
    poll_once-folds marks_only two_marks (mark_at 1 ∷ []) (mark_at 2 ∷ []) [] shadow shadow_state
      two_marks-Written (omega arith) (omega arith) first_size shadow_folds
