-- ===== src/Recovery/RestartTests.antt =====
-- A process that records two marks, commits after the first, and dies: the state after the restart
-- (hobo/builder.py), at the desk of the tests of the recovery.
use Prim.Native.Nat.{◌+◌, ◌^◌}
use hobo.Prelude.{
  ℕ, Bytes, Option, raised, key_error, ◌≡◌, refl, none, some, [], ◌∷◌, pack, unpack, take, drop,
  replicate, returned, after, ok, arith, ◌<◌,
}
use hobo.Prelude.Dict
use hobo.Float.{sum_from, try_sum_from}
use hobo.Float.Int.{◌+ℤ◌, ◌-ℤ◌, ◌*ℤ◌, neg_ℤ, int_num, ℤ, pos}
use hobo.Risk.Math.{unrealized_pnl}
use hobo.Risk.State.{
  book_unrealized_pnl, book_realized_pnl, book_funding_pnl, book_fees_paid, book_total_pnl,
  desk_total_pnl,
}
use hobo.Risk.Fold.{
  apply_event, handle, apply_mark, apply_fill, fill_book, update_high_water_marks, raise_book_marks,
  raise_desk_mark,
}
use hobo.Log.Event.{Envelope, LogEvent, mark_update, fill}
use hobo.Log.Format.{
  Codec, Fits, encode_frame, pack_header, unpack_header, scan_ahead, iter_frames_with_offsets,
  iter_frames, decode_frame_at, decode_payload,
}
use hobo.Log.Writer.{
  append, commit, do_commit, ensure_capacity, grow_until, new_file, open_file, open_log,
}
use hobo.Log.Writer.Steps.{next_envelope}
use hobo.Core.Store.{StateStore, record_event}
use hobo.Recovery.History.{done, recorded, committed}
use hobo.Recovery.Failed
use hobo.Recovery.Restart.{Restarts, recover_state-Restarts, recover_state-raises}
use hobo.Recovery.Tests.{marks_only, mark_at, mark-Fits, fresh_writer, unfolded_desk}

abbrev mark : LogEvent ℤ
mark = mark_update "SWAP" (pos 120) 0

abbrev new_store : StateStore ℤ
new_store = record { state = unfolded_desk; writer = fresh_writer }

abbrev one : StateStore ℤ
one = after (record_event marks_only new_store mark 0)

abbrev safe : StateStore ℤ
safe = record one { writer = (commit one.writer).1 }

abbrev two : StateStore ℤ
two = after (record_event marks_only safe mark 0)

opened : open_log marks_only 64 2 [] ≡ ok fresh_writer
unfolding open_log open_file new_file unpack_header scan_ahead iter_frames_with_offsets iter_frames
    decode_frame_at decode_payload take drop replicate pack unpack pack_header
opened = refl

one_recorded : record_event marks_only new_store mark 0 ≡ returned (mark_at 1) one
unfolding record_event append encode_frame apply_event handle apply_mark update_high_water_marks
    raise_book_marks raise_desk_mark desk_total_pnl book_total_pnl book_unrealized_pnl
    book_realized_pnl book_funding_pnl book_fees_paid sum_from try_sum_from ◌+ℤ◌ ◌-ℤ◌ ◌*ℤ◌ neg_ℤ
    unrealized_pnl Dict.get Dict.set
one_recorded = refl

two_recorded : record_event marks_only safe mark 0 ≡ returned (next_envelope safe.writer mark 0) two
unfolding record_event append ensure_capacity encode_frame apply_event handle apply_mark
    update_high_water_marks raise_book_marks raise_desk_mark desk_total_pnl book_total_pnl
    book_unrealized_pnl book_realized_pnl book_funding_pnl book_fees_paid sum_from try_sum_from ◌+ℤ◌
    ◌-ℤ◌ ◌*ℤ◌ neg_ℤ unrealized_pnl Dict.get Dict.set
two_recorded = refl

small : two.writer.capacity < 2 ^ 63
unfolding record_event append commit do_commit encode_frame apply_event handle apply_mark
    update_high_water_marks raise_book_marks raise_desk_mark desk_total_pnl book_total_pnl
    book_unrealized_pnl book_realized_pnl book_funding_pnl book_fees_paid sum_from try_sum_from ◌+ℤ◌
    ◌-ℤ◌ ◌*ℤ◌ neg_ℤ unrealized_pnl Dict.get Dict.set ensure_capacity grow_until pack
small = omega arith

recover_state-Restarts_example :
    Restarts marks_only unfolded_desk none two.writer 64 2 (returned tt two.state)
    × Restarts marks_only unfolded_desk (some one.state) two.writer 64 2 (returned tt two.state)
recover_state-Restarts_example =
    recover_state-Restarts marks_only unfolded_desk 64 2 fresh_writer one two refl (omega arith)
      (omega arith) (omega arith) opened (recorded mark 0 (mark-Fits 1) one_recorded done)
      (committed (recorded mark 0 (mark-Fits (safe.writer.last_seq + 1)) two_recorded done)) small

-- A fill of an instrument that the desk does not have.
abbrev ghost : LogEvent ℤ
ghost = fill (record {
  order_id = "ALPHA-1";
  book_id = "ALPHA";
  instrument_id = "GHOST";
  side = "BUY";
  qty = pos 1;
  fill_price = pos 7;
  fee = none;
  trade_id = none;
})

abbrev read_ghost : Bytes → Option (Envelope (LogEvent ℤ))
read_ghost (seq ∷ []) = some (record { seq = seq; ts_ns = 0; event = ghost })
read_ghost _ = none

abbrev ghosts_only : Codec (LogEvent ℤ)
ghosts_only = record { dumps = λ e. e.seq ∷ []; loads = read_ghost }

ghost-Fits : (seq : ℕ) → Fits ghosts_only (record { seq = seq; ts_ns = 0; event = ghost })
ghost-Fits seq = record { nonempty = omega arith; short = omega arith; readable = refl }

abbrev left : StateStore ℤ
left = after (record_event ghosts_only new_store ghost 0)

ghost_opened : open_log ghosts_only 64 2 [] ≡ ok fresh_writer
unfolding open_log open_file new_file unpack_header scan_ahead iter_frames_with_offsets iter_frames
    decode_frame_at decode_payload take drop replicate pack unpack pack_header
ghost_opened = refl

ghost_raises : record_event ghosts_only new_store ghost 0 ≡ raised key_error left
unfolding record_event append encode_frame apply_event handle apply_fill fill_book Dict.get Dict.set
ghost_raises = refl

-- The log is committed, and the venue reports another such fill.
abbrev left_committed : StateStore ℤ
left_committed = record left { writer = (commit left.writer).1 }

abbrev later : StateStore ℤ
later = after (record_event ghosts_only left_committed ghost 0)

later_small : later.writer.capacity < 2 ^ 63
unfolding record_event append encode_frame apply_event handle apply_fill fill_book Dict.get Dict.set
    ensure_capacity grow_until pack commit do_commit
later_small = omega arith

recover_state-raises_example :
    Restarts ghosts_only unfolded_desk none later.writer 64 2 (raised key_error left.state)
    × Restarts ghosts_only unfolded_desk
        (some unfolded_desk)
        later.writer
        64
        2
        (raised key_error left.state)
recover_state-raises_example =
    recover_state-raises ghosts_only unfolded_desk 64 2 fresh_writer new_store new_store ghost 0
      key_error left later refl (omega arith) (omega arith) (omega arith) ghost_opened done done
      (ghost-Fits 1) ghost_raises
      (Failed.committed
        (Failed.recorded ghost 0 (ghost-Fits (left_committed.writer.last_seq + 1)) Failed.done))
      later_small
