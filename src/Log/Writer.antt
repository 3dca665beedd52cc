-- ===== src/Log/Writer.antt =====
-- hobo/log/writer.py: the single writer of the event log. `mm` is the file, which the map shares:
-- what is stored there outlives the process.
pub mod Header
pub mod Written
pub mod Steps
pub mod Scanned
pub mod Recovered
use Prim.Native.Nat.{◌+◌, ◌*◌}
use hobo.Prelude.{
  ℕ, zero, suc, ◌≡◌, Bool, true, false, none, some, List, [], ◌∷◌, ◌++◌, length, ltb, ◌==◌,
  if◌then◌else◌, Bytes, splice, replicate, ftruncate, Result, ok, err, bind, Outcome, returned,
  raised,
}
use hobo.Log.Event.{Envelope}
use hobo.Log.Format.{
  Codec, header_size, pack_header, unpack_header, write_capacity, write_committed, encode_frame,
  scan_ahead,
}

pub record LogWriter : Type 0 where
  pub mm : Bytes
  pub growth_factor : ℕ
  pub capacity : ℕ
  pub committed_offset : ℕ
  pub write_offset : ℕ
  pub last_seq : ℕ
  pub recovered_uncommitted_count : ℕ

-- `_do_commit`, between the calls that flush.
unfoldable pub do_commit : LogWriter → LogWriter
do_commit w = record w {
  mm = write_committed w.mm w.write_offset w.last_seq;
  committed_offset = w.write_offset;
}

-- `commit`: whether there was anything to commit, and the writer.
unfoldable pub commit : LogWriter → Bool × LogWriter
commit w = if w.write_offset == w.committed_offset then (false, w) else (true, do_commit w)

unfoldable pub grow : LogWriter → LogWriter
grow w =
    let new_capacity = w.capacity * w.growth_factor in
    record w {
      mm = write_capacity (ftruncate w.mm (header_size + new_capacity)) new_capacity;
      capacity = new_capacity;
    }

-- The loop of `_ensure_capacity`, on fuel.
unfoldable pub grow_until : ℕ → LogWriter → ℕ → LogWriter
grow_until zero w needed = w
grow_until (suc fuel) w needed =
    let rest = grow_until fuel (grow w) needed in
    if ltb w.capacity (w.write_offset + needed) then rest else w

-- A factor of two at least adds a byte at least each time.
unfoldable pub ensure_capacity : LogWriter → ℕ → LogWriter
ensure_capacity w needed = grow_until (w.write_offset + needed) w needed

-- A new file: the header, and zeros behind it.
unfoldable pub new_file : ℕ → Bytes
new_file initial_capacity = pack_header initial_capacity 0 0 ++ replicate initial_capacity 0

module _ {E : Type 0} (codec : Codec E) where
  -- The opening of a file that has content; an empty one gets it first.
  unfoldable pub open_file : ℕ → Bytes → Result LogWriter
  open_file growth_factor file = bind (unpack_header file) λ header.
      bind (scan_ahead codec file header.committed_offset header.capacity header.last_seq)
        λ scanned.
          let w : LogWriter = record {
            mm = file;
            growth_factor = growth_factor;
            capacity = header.capacity;
            committed_offset = header.committed_offset;
            write_offset = scanned.0;
            last_seq = scanned.1;
            recovered_uncommitted_count = scanned.2;
          } in
          ok (if scanned.0 == header.committed_offset then w else do_commit w)

  unfoldable pub open_log : ℕ → ℕ → Bytes → Result LogWriter
  open_log initial_capacity growth_factor [] = open_file growth_factor (new_file initial_capacity)
  open_log initial_capacity growth_factor (b ∷ bs) = open_file growth_factor (b ∷ bs)

  unfoldable pub append : LogWriter → E → ℕ → Outcome LogWriter (Envelope E)
  append w event ts_ns =
      let envelope : Envelope E = record { seq = w.last_seq + 1; ts_ns = ts_ns; event = event } in
      elim (encode_frame codec envelope) [
        | err e ↦ raised e w
        | ok frame ↦
            let roomy = ensure_capacity w (length frame) in
            returned envelope (record roomy {
              mm = splice roomy.mm (header_size + roomy.write_offset) frame;
              write_offset = roomy.write_offset + length frame;
              last_seq = w.last_seq + 1;
            })
      ]
