-- ===== src/Log/Writer/Scanned.antt =====
-- What scan_ahead of hobo/log/format.py finds behind the committed end of the file of a writer.
use Prim.Native.Nat.{◌+◌, ◌-◌}
use mathlib.Core.List.{append_assoc}
use mathlib.Core.Path.{subst}
use hobo.Prelude.{
  none, ℕ, suc, ◌≡◌, sym, ap, ◌∙◌, List, [], ◌∷◌, ◌++◌, length, length-append, Bytes, replicate,
  All, arith, ok,
}
use hobo.Log.Event.{Envelope}
use hobo.Log.Format.{
  Fits, Codec, header_size, pack_header, frame_of, iter_frames_with_offsets, decode_frame_at,
  scan_ahead, count_frames,
}
use hobo.Log.Format.Frames.{encode_all, with_offsets, iter_frames-written, decode_frame_at-zeros}
use hobo.Log.Writer.{LogWriter}
use hobo.Log.Writer.Header.{length-pack_header}
use hobo.Log.Writer.Written.{Written, Numbered, encode_all-append, length-encode_all, length-mm}

triple :
    (a b c a' b' c' : ℕ) → a ≡ a' → b ≡ b' → c ≡ c' → ◌≡◌ {A = ℕ × ℕ × ℕ} (a, b, c) (a', b', c')
triple a b c a' b' c' e f g = cc

module _ {E : Type 0} (codec : Codec E) where
  pub All-second :
      (P : Envelope E → Type 0) (xs ys : List (Envelope E)) → All P (xs ++ ys) → All P ys
  All-second P [] ys h = h
  All-second P (x ∷ xs) ys (p, h) = All-second P xs ys h

  pending_frames :
      (w : LogWriter) (cs ps : List (Envelope E))
      → Written codec w cs ps
      → iter_frames_with_offsets codec w.mm
          (header_size + w.committed_offset)
          (header_size + w.capacity)
        ≡ ok (with_offsets codec (header_size + w.committed_offset) ps)
  unfolding iter_frames_with_offsets
  pending_frames w cs ps h =
      let limit = header_size + w.capacity in
      let header = pack_header w.capacity w.committed_offset (length cs) in
      let zeros : Bytes = replicate h.room 0 in
      let page = length-pack_header w.capacity w.committed_offset (length cs) in
      let sizes =
        ap length (encode_all-append codec cs ps)
        ∙ length-append (encode_all codec cs) (encode_all codec ps) in
      let behind : header_size + w.committed_offset + length (encode_all codec ps)
          ≡ length (header ++ encode_all codec (cs ++ ps)) =
        omega (
          arith,
          length-append header (encode_all codec (cs ++ ps)),
          page,
          sizes,
          h.committed_is,
        ) in
      iter_frames-written codec ps (suc limit) w.mm (header ++ encode_all codec cs) zeros
        (header_size + w.committed_offset) limit
        (h.mm_is
          ∙ ap (λ l. header ++ l)
              (ap (λ l. l ++ zeros) (encode_all-append codec cs ps)
                ∙ append_assoc (encode_all codec cs) (encode_all codec ps) zeros)
          ∙ sym (append_assoc header (encode_all codec cs) _))
        (omega (arith, length-append header (encode_all codec cs), page, h.committed_is))
        (All-second (Fits codec) cs ps h.all_fit)
        (omega (arith, length-encode_all codec ps, sizes, h.written_is, h.room_is))
        (omega (arith, sizes, h.committed_is, h.written_is, h.room_is))
        (subst (λ o. decode_frame_at codec w.mm o limit ≡ ok none) (sym behind)
          (decode_frame_at-zeros codec w.mm (header ++ encode_all codec (cs ++ ps)) h.room limit
            (h.mm_is ∙ sym (append_assoc header _ _)) (omega (arith, length-mm codec w cs ps h))))

  count_frames-with_offsets :
      (es : List (Envelope E)) (start n count : ℕ)
      → Numbered n es
      → count_frames (start - header_size) n count (with_offsets codec start es)
        ≡ (start + length (encode_all codec es) - header_size, n + length es, count + length es)
  unfolding with_offsets encode_all
  count_frames-with_offsets [] start n count h =
      triple _ _ _ _ _ _ (omega arith) (omega arith) (omega arith)
  count_frames-with_offsets (e ∷ es) start n count (k, h) =
      let next = start + length (frame_of codec e) in
      ap (λ q. count_frames (next - header_size) q (count + 1) (with_offsets codec next es)) k
      ∙ count_frames-with_offsets es next (n + 1) (count + 1) h
      ∙ triple _ _ _ _ _ _ (omega (arith, length-append (frame_of codec e) (encode_all codec es)))
          (omega arith) (omega arith)

  Numbered-second :
      (n : ℕ) (xs ys : List (Envelope E)) → Numbered n (xs ++ ys) → Numbered (n + length xs) ys
  Numbered-second n [] ys h = subst (λ m. Numbered m ys) (omega arith) h
  Numbered-second n (x ∷ xs) ys (e, h) =
      subst (λ m. Numbered m ys) (omega arith) (Numbered-second (n + 1) xs ys h)

  pub scan_ahead-mm :
      (w : LogWriter) (cs ps : List (Envelope E))
      → Written codec w cs ps
      → scan_ahead codec w.mm w.committed_offset w.capacity (length cs)
        ≡ ok (w.write_offset, w.last_seq, length ps)
  unfolding scan_ahead
  scan_ahead-mm w cs ps h =
      let start = header_size + w.committed_offset in
      let zero_plus : 0 + length cs ≡ length cs = omega arith in
      let sizes =
        ap length (encode_all-append codec cs ps)
        ∙ length-append (encode_all codec cs) (encode_all codec ps) in
      rw (pending_frames w cs ps h) (
        ap ok (
          ap (λ o. count_frames o (length cs) 0 (with_offsets codec start ps)) (omega arith)
          ∙ count_frames-with_offsets ps start (length cs) 0
              (subst (λ m. Numbered m ps) zero_plus (Numbered-second 0 cs ps h.numbered))
          ∙ triple _ _ _ _ _ _ (omega (arith, sizes, h.committed_is, h.written_is))
              (omega (arith, h.seq_is, length-append cs ps)) (omega arith)))
