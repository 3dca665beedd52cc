-- ===== src/Log/Format.antt =====
-- hobo/log/format.py and hobo/log/reader.py: the header page and the frames of the log file. The
-- text of an envelope (`Envelope.to_json_dict`, `json` and UTF-8) is a parameter, the `Codec`.
pub mod Frames
use Prim.Native.Nat.{◌+◌, ◌-◌, ◌^◌}
use hobo.Prelude.{
  ℕ, zero, suc, ◌≡◌, Bool, Option, none, some, List, [], ◌∷◌, ◌++◌, map, length, ltb, ◌==◌,
  if◌then◌else◌, ◌<◌, Bytes, take, slice, splice, replicate, pack, unpack, Result, ok, err, bind,
  corrupt_log_error, struct_error, ◌||◌,
}
use hobo.Log.Event.{Envelope}

-- `MAGIC` is "RISKLOG1".
abbrev pub magic : Bytes
magic = 82 ∷ 73 ∷ 83 ∷ 75 ∷ 76 ∷ 79 ∷ 71 ∷ 49 ∷ []

abbrev pub header_size : ℕ
header_size = 4096

abbrev pub capacity_off : ℕ
capacity_off = 12

abbrev pub committed_offset_off : ℕ
committed_offset_off = 20

abbrev pub frame_len_size : ℕ
frame_len_size = 4

-- The envelope's text. `loads` fails where `decode_frame_at` catches an exception.
pub record Codec (E : Type 0) : Type 0 where
  pub dumps : Envelope E → Bytes
  pub loads : Bytes → Option (Envelope E)

-- What the log relies on of the text of an envelope: it is not empty, its length fits into four
-- bytes, and it is read back.
pub record Fits {E : Type 0} (codec : Codec E) (e : Envelope E) : Type 0 where
  pub nonempty : 0 < length (codec.dumps e)
  pub short : length (codec.dumps e) < 2 ^ 32
  pub readable : codec.loads (codec.dumps e) ≡ some e

pub record HeaderFields : Type 0 where
  pub version : ℕ
  pub capacity : ℕ
  pub committed_offset : ℕ
  pub last_seq : ℕ

-- The padding of the header page: the fields take 36 bytes.
abbrev pub padding : Bytes
padding = replicate 4060 0

-- The fields of `_HEADER_STRUCT`; the numbers are below 2^63.
abbrev pub pack_fields : ℕ → ℕ → ℕ → Bytes
pack_fields capacity committed_offset last_seq =
    magic
    ++ (pack 4 1 ++ (pack 8 capacity ++ (pack 8 committed_offset ++ (pack 8 last_seq ++ padding))))

unfoldable pub pack_header : ℕ → ℕ → ℕ → Bytes
pack_header capacity committed_offset last_seq = pack_fields capacity committed_offset last_seq

abbrev pub same_bytes : Bytes → Bytes → Bool
same_bytes [] [] = Bool.true
same_bytes [] (y ∷ ys) = Bool.false
same_bytes (x ∷ xs) [] = Bool.false
same_bytes (x ∷ xs) (y ∷ ys) = if x == y then same_bytes xs ys else Bool.false

abbrev pub field_at : Bytes → ℕ → ℕ → ℕ
field_at buf start stop = unpack (slice buf start stop)

unfoldable pub unpack_header : Bytes → Result HeaderFields
unpack_header buf =
    if ltb (length buf) header_size
    then err corrupt_log_error
    else if same_bytes (slice buf 0 8) magic
    then ok (record {
      version = field_at buf 8 12;
      capacity = field_at buf 12 20;
      committed_offset = field_at buf 20 28;
      last_seq = field_at buf 28 36;
    })
    else err corrupt_log_error

unfoldable pub write_capacity : Bytes → ℕ → Bytes
write_capacity buf capacity = splice buf capacity_off (pack 8 capacity)

unfoldable pub write_committed : Bytes → ℕ → ℕ → Bytes
write_committed buf committed_offset last_seq =
    splice buf committed_offset_off (pack 8 committed_offset ++ pack 8 last_seq)

-- The loop of `scan_ahead`.
abbrev pub count_frames : {E : Type 0} → ℕ → ℕ → ℕ → List (Envelope E × ℕ) → ℕ × ℕ × ℕ
count_frames offset seq count [] = (offset, seq, count)
count_frames offset seq count ((envelope, next) ∷ frames) =
    count_frames (next - header_size) envelope.seq (count + 1) frames

module _ {E : Type 0} (codec : Codec E) where
  abbrev pub frame_of : Envelope E → Bytes
  frame_of envelope =
      let payload_bytes = codec.dumps envelope in
      pack frame_len_size (length payload_bytes) ++ (payload_bytes ++ 10 ∷ [])

  -- A length that four bytes do not hold is a `struct.error`.
  unfoldable pub encode_frame : Envelope E → Result Bytes
  encode_frame envelope =
      if ltb (length (codec.dumps envelope)) (2 ^ 32)
      then ok (frame_of envelope)
      else err struct_error

  -- The payload between the length and the newline.
  unfoldable pub decode_payload : Bytes → ℕ → ℕ → ℕ → Option (Envelope E × ℕ)
  decode_payload buf offset limit len =
      let start = offset + frame_len_size in
      let frame_end = start + len + 1 in
      if len == 0 || ltb limit frame_end
      then none
      else if same_bytes (slice buf (start + len) frame_end) (10 ∷ [])
      then elim (codec.loads (slice buf start (start + len))) [
        | none ↦ none
        | some envelope ↦ some (envelope, frame_end)
      ]
      else none

  -- `none` is the result `(None, offset)`. The length is read only where the buffer has it.
  unfoldable pub decode_frame_at : Bytes → ℕ → ℕ → Result (Option (Envelope E × ℕ))
  decode_frame_at buf offset limit =
      let start = offset + frame_len_size in
      if ltb limit start
      then ok none
      else if ltb (length buf) start
      then err struct_error
      else ok (decode_payload buf offset limit (field_at buf offset start))

  -- The loop of `iter_frames_with_offsets`, on fuel.
  unfoldable pub iter_frames : ℕ → Bytes → ℕ → ℕ → Result (List (Envelope E × ℕ))
  iter_frames zero buf offset limit = ok []
  iter_frames (suc fuel) buf offset limit = bind (decode_frame_at buf offset limit) (λ frame.
      elim frame [
        | none ↦ ok []
        | some (envelope, next) ↦
            bind (iter_frames fuel buf next limit) (λ rest. ok ((envelope, next) ∷ rest))
      ])

  -- A frame takes a byte at least, so that `limit` of them cannot be exceeded.
  unfoldable pub iter_frames_with_offsets : Bytes → ℕ → ℕ → Result (List (Envelope E × ℕ))
  iter_frames_with_offsets buf start limit = iter_frames (suc limit) buf start limit

  unfoldable pub scan_ahead : Bytes → ℕ → ℕ → ℕ → Result (ℕ × ℕ × ℕ)
  scan_ahead buf committed_offset capacity last_seq =
      bind (iter_frames_with_offsets buf (header_size + committed_offset) (header_size + capacity))
        (λ frames. ok (count_frames committed_offset last_seq 0 frames))

  -- reader.py

  unfoldable pub replay : Bytes → Result (List (Envelope E))
  replay mm = bind (unpack_header mm) λ header.
      bind (iter_frames_with_offsets mm header_size (header_size + header.committed_offset))
        λ frames. ok (map (λ (f : Envelope E × ℕ). f.0) frames)

  unfoldable pub replay_range : Bytes → ℕ → ℕ → Result (List (Envelope E))
  replay_range mm start_offset end_offset =
      bind (iter_frames_with_offsets mm (header_size + start_offset) (header_size + end_offset))
        (λ frames. ok (map (λ (f : Envelope E × ℕ). f.0) frames))
