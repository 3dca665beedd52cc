-- ===== src/Log/Tests.antt =====
-- A log of numbers: the theorems on hobo/log at concrete inputs.
use Prim.Native.Nat.{◌+◌}
use hobo.Prelude.{
  ℕ, ◌≡◌, refl, none, some, Option, [], ◌∷◌, ◌++◌, length, Bytes, pack, replicate, ok, returned,
  arith,
}
use hobo.Log.Event.{Envelope}
use hobo.Log.Format.{Fits, Codec, pack_header, frame_of, decode_frame_at, replay}
use hobo.Log.Format.Frames.{encode_all, decode_frame_at-written}
use hobo.Log.Writer.{LogWriter, new_file, append, open_log}
use hobo.Log.Writer.Written.{Written}
use hobo.Log.Writer.Steps.{next_envelope, append-Written}
use hobo.Log.Writer.Recovered.{replay-Written, open_log-Written}

-- An envelope as three bytes.
abbrev read_three : Bytes → Option (Envelope ℕ)
read_three (seq ∷ ts_ns ∷ event ∷ []) = some (record { seq = seq; ts_ns = ts_ns; event = event })
read_three _ = none

abbrev numbers : Codec ℕ
numbers = record { dumps = λ e. e.seq ∷ e.ts_ns ∷ e.event ∷ []; loads = read_three }

abbrev fresh : LogWriter
fresh = record {
  mm = new_file 64;
  growth_factor = 2;
  capacity = 64;
  committed_offset = 0;
  write_offset = 0;
  last_seq = 0;
  recovered_uncommitted_count = 0;
}

fresh-Written : Written numbers fresh [] []
unfolding new_file encode_all
fresh-Written = record {
  room = 64;
  mm_is = refl;
  room_is = refl;
  committed_is = refl;
  written_is = refl;
  seq_is = refl;
  all_fit = tt;
  numbered = tt;
  has_capacity = omega arith;
  grows = omega arith;
}

abbrev first : Envelope ℕ
first = next_envelope fresh 9 7

abbrev second : Envelope ℕ
second = record { seq = 2; ts_ns = 8; event = 6 }

first-Fits : Fits numbers first
first-Fits = record { nonempty = omega arith; short = omega arith; readable = refl }

second-Fits : Fits numbers second
second-Fits = record { nonempty = omega arith; short = omega arith; readable = refl }

append-Written_example :
    (w : LogWriter) × (append numbers fresh 9 7 ≡ returned first w)
    × Written numbers w [] ([] ++ first ∷ [])
append-Written_example = append-Written numbers fresh [] [] 9 7 fresh-Written first-Fits

-- A writer with an envelope that is committed and one that is not.
abbrev busy : LogWriter
busy = record fresh {
  mm = pack_header 64 8 1 ++ (encode_all numbers (first ∷ second ∷ []) ++ replicate 48 0);
  committed_offset = 8;
  write_offset = 16;
  last_seq = 2;
}

busy-Written : Written numbers busy (first ∷ []) (second ∷ [])
unfolding encode_all pack
busy-Written = record {
  room = 48;
  mm_is = refl;
  room_is = refl;
  committed_is = refl;
  written_is = refl;
  seq_is = refl;
  all_fit = (first-Fits, (second-Fits, tt));
  numbered = (refl, (refl, tt));
  has_capacity = omega arith;
  grows = omega arith;
}

replay-Written_example : replay numbers busy.mm ≡ ok (first ∷ [])
replay-Written_example =
    replay-Written numbers busy (first ∷ []) (second ∷ []) busy-Written (omega arith)

open_log-Written_example :
    (w : LogWriter) × (open_log numbers 128 2 busy.mm ≡ ok w)
    × Written numbers w (first ∷ second ∷ []) []
    × (w.recovered_uncommitted_count ≡ 1)
    × (w.write_offset ≡ 16)
    × (w.last_seq ≡ 2)
    × (w.capacity ≡ 64)
open_log-Written_example =
    open_log-Written numbers busy (first ∷ []) (second ∷ []) 128 2 busy-Written (omega arith)
      (omega arith)

size_of_first : length (frame_of numbers first) ≡ 8
unfolding pack
size_of_first = refl

decode_frame_at-written_example :
    decode_frame_at numbers (255 ∷ (frame_of numbers first ++ 0 ∷ [])) 1 20
    ≡ ok (some (first, 1 + length (frame_of numbers first)))
decode_frame_at-written_example =
    decode_frame_at-written numbers (255 ∷ (frame_of numbers first ++ 0 ∷ [])) (255 ∷ []) (0 ∷ [])
      20 first refl first-Fits (omega (arith, size_of_first))
