-- ===== src/Log/Writer/Recovered.antt =====
-- What is read from the file that a writer leaves: `replay` of hobo/log/reader.py, and the opening
-- of the file by the next writer.
use Prim.Native.Nat.{◌+◌, ◌^◌}
use mathlib.Core.List.{append_assoc}
use mathlib.Core.Path.{subst}
use hobo.Prelude.{
  if◌then◌else◌, none, ℕ, suc, ◌≡◌, refl, sym, ap, ◌∙◌, ◌<◌, ◌≤◌, ◌==◌, List, [], ◌∷◌, ◌++◌, length,
  length-append, map, Bytes, replicate, All, arith, ok, Bool-cases, inl, inr,
}
use hobo.Log.Event.{Envelope}
use hobo.Log.Format.{
  Fits, Codec, header_size, pack_header, frame_of, replay, iter_frames_with_offsets,
  decode_frame_at, unpack_header,
}
use hobo.Log.Format.Frames.{encode_all, with_offsets, iter_frames-written, decode_frame_at-limit}
use hobo.Log.Writer.{LogWriter, commit, do_commit, new_file, open_file, open_log}
use hobo.Log.Writer.Header.{length-pack_header, unpack_header-pack_header}
use hobo.Log.Writer.Steps.{commit-Written}
use hobo.Log.Writer.Written.{Written, encode_all-append, length-encode_all, length-mm}
use hobo.Log.Writer.Scanned.{scan_ahead-mm}

module _ {E : Type 0} (codec : Codec E) where
  pub envelopes-with_offsets :
      (start : ℕ) (es : List (Envelope E))
      → map (λ (f : Envelope E × ℕ). f.0) (with_offsets codec start es) ≡ es
  unfolding with_offsets
  envelopes-with_offsets start [] = refl
  envelopes-with_offsets start (e ∷ es) =
      ap (λ l. e ∷ l) (envelopes-with_offsets (start + length (frame_of codec e)) es)

  -- The header of the file.
  pub unpack_header-mm :
      (w : LogWriter) (cs ps : List (Envelope E))
      → Written codec w cs ps
      → w.capacity < 2 ^ 63
      → unpack_header w.mm
        ≡ ok (record {
          version = 1;
          capacity = w.capacity;
          committed_offset = w.committed_offset;
          last_seq = length cs;
        })
  unpack_header-mm w cs ps h small =
      let sizes =
        ap length (encode_all-append codec cs ps)
        ∙ length-append (encode_all codec cs) (encode_all codec ps) in
      ap unpack_header h.mm_is
      ∙ unpack_header-pack_header w.capacity w.committed_offset (length cs) _ small
          (omega (arith, sizes, h.committed_is, h.written_is, h.room_is))
          (omega
            (arith, sizes, h.committed_is, h.written_is, h.room_is, length-encode_all codec cs))

  pub All-first :
      (P : Envelope E → Type 0) (xs ys : List (Envelope E)) → All P (xs ++ ys) → All P xs
  All-first P [] ys h = tt
  All-first P (x ∷ xs) ys (p, h) = (p, All-first P xs ys h)

  committed_frames :
      (w : LogWriter) (cs ps : List (Envelope E))
      → Written codec w cs ps
      → iter_frames_with_offsets codec w.mm header_size (header_size + w.committed_offset)
        ≡ ok (with_offsets codec header_size cs)
  unfolding iter_frames_with_offsets
  committed_frames w cs ps h =
      let limit = header_size + w.committed_offset in
      let zeros : Bytes = replicate h.room 0 in
      iter_frames-written codec cs (suc limit) w.mm
        (pack_header w.capacity w.committed_offset (length cs)) (encode_all codec ps ++ zeros)
        header_size limit
        (h.mm_is
          ∙ ap (λ l. pack_header w.capacity w.committed_offset (length cs) ++ l)
              (ap (λ l. l ++ zeros) (encode_all-append codec cs ps)
                ∙ append_assoc (encode_all codec cs) (encode_all codec ps) zeros))
        (sym (length-pack_header w.capacity w.committed_offset (length cs)))
        (All-first (Fits codec) cs ps h.all_fit)
        (omega (arith, length-encode_all codec cs, h.committed_is)) (omega (arith, h.committed_is))
        (subst (λ o. decode_frame_at codec w.mm (header_size + o) limit ≡ ok none) h.committed_is
          (decode_frame_at-limit codec w.mm limit))

  -- Replay is exact: from the file of a writer, `replay` returns the committed envelopes in the
  -- order in which they were appended, and none of those that were appended since the last commit.
  pub replay-Written :
      (w : LogWriter) (cs ps : List (Envelope E))
      → Written codec w cs ps
      → w.capacity < 2 ^ 63
      → replay codec w.mm ≡ ok cs
  unfolding replay
  replay-Written w cs ps h small =
      rw (unpack_header-mm w cs ps h small, committed_frames w cs ps h)
        (ap ok (envelopes-with_offsets header_size cs))

  -- The next writer before it commits.
  abbrev reopened : ℕ → LogWriter → List (Envelope E) → LogWriter
  reopened growth_factor w ps = record w {
    growth_factor = growth_factor;
    recovered_uncommitted_count = length ps;
  }

  reopened-Written :
      (w : LogWriter) (cs ps : List (Envelope E)) (growth_factor : ℕ)
      → Written codec w cs ps
      → 2 ≤ growth_factor
      → Written codec (reopened growth_factor w ps) cs ps
  reopened-Written w cs ps growth_factor h factor = record {
    room = h.room;
    mm_is = h.mm_is;
    room_is = h.room_is;
    committed_is = h.committed_is;
    written_is = h.written_is;
    seq_is = h.seq_is;
    all_fit = h.all_fit;
    numbered = h.numbered;
    has_capacity = h.has_capacity;
    grows = factor;
  }

  open_log-nonempty :
      (initial_capacity growth_factor : ℕ) (file : Bytes)
      → 0 < length file
      → open_log codec initial_capacity growth_factor file ≡ open_file codec growth_factor file
  unfolding open_log
  open_log-nonempty initial_capacity growth_factor [] h = absurd (omega arith)
  open_log-nonempty initial_capacity growth_factor (b ∷ bs) h = refl

  open_file-mm :
      (w : LogWriter) (cs ps : List (Envelope E)) (growth_factor : ℕ)
      → Written codec w cs ps
      → w.capacity < 2 ^ 63
      → open_file codec growth_factor w.mm
        ≡ ok (
            if w.write_offset == w.committed_offset
            then reopened growth_factor w ps
            else do_commit (reopened growth_factor w ps))
  unfolding open_file
  open_file-mm w cs ps growth_factor h small =
      rw (unpack_header-mm w cs ps h small, scan_ahead-mm codec w cs ps h) refl

  -- Reopening loses nothing: from the file of a writer that was not closed, the next writer opens.
  -- It counts the envelopes appended since the last commit, and in its file all are committed; it
  -- goes on from the same offset and sequence number, with the same capacity.
  pub open_log-Written :
      (w : LogWriter) (cs ps : List (Envelope E)) (initial_capacity growth_factor : ℕ)
      → Written codec w cs ps
      → w.capacity < 2 ^ 63
      → 2 ≤ growth_factor
      → (w' : LogWriter) × (open_log codec initial_capacity growth_factor w.mm ≡ ok w')
        × Written codec w' (cs ++ ps) []
        × (w'.recovered_uncommitted_count ≡ length ps)
        × (w'.write_offset ≡ w.write_offset)
        × (w'.last_seq ≡ w.last_seq)
        × (w'.capacity ≡ w.capacity)
  unfolding commit do_commit
  open_log-Written w cs ps initial_capacity growth_factor h small factor =
      let w₀ = reopened growth_factor w ps in
      let opens =
        open_log-nonempty initial_capacity growth_factor w.mm
          (omega (arith, length-mm codec w cs ps h))
        ∙ open_file-mm w cs ps growth_factor h small in
      let committed =
        commit-Written codec w₀ cs ps (reopened-Written w cs ps growth_factor h factor) in
      elim (Bool-cases (w.write_offset == w.committed_offset)) [
        | inl e ↦ (w₀, rw e at opens, rw e at committed, refl, refl, refl, refl)
        | inr e ↦ (do_commit w₀, rw e at opens, rw e at committed, refl, refl, refl, refl)
      ]

  -- A new log is empty: where no file is there, the writer opens, and its file holds no envelope.
  pub new_file-Written :
      (initial_capacity growth_factor : ℕ)
      → 0 < initial_capacity
      → initial_capacity < 2 ^ 63
      → 2 ≤ growth_factor
      → (w : LogWriter) × (open_log codec initial_capacity growth_factor [] ≡ ok w)
        × Written codec w [] []
        × (w.capacity ≡ initial_capacity)
  unfolding open_log new_file encode_all
  new_file-Written initial_capacity growth_factor positive small factor =
      let w : LogWriter = record {
        mm = new_file initial_capacity;
        growth_factor = growth_factor;
        capacity = initial_capacity;
        committed_offset = 0;
        write_offset = 0;
        last_seq = 0;
        recovered_uncommitted_count = 0;
      } in
      let h : Written codec w [] [] = record {
        room = initial_capacity;
        mm_is = refl;
        room_is = omega arith;
        committed_is = refl;
        written_is = refl;
        seq_is = refl;
        all_fit = tt;
        numbered = tt;
        has_capacity = positive;
        grows = factor;
      } in
      (w, open_file-mm w [] [] growth_factor h small, h, refl)
