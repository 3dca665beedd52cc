-- ===== src/Log/Writer/Steps.antt =====
-- Each operation of the writer keeps what the file holds, and adds to it.
use Prim.Native.Nat.{◌+◌, ◌-◌}
use mathlib.Core.List.{append_assoc, append-nil}
use mathlib.Core.Path.{subst}
use hobo.Prelude.{
  Result-cases, ℕ, ◌≡◌, refl, sym, ap, ◌∙◌, lt→ltb, ◌==◌, Bool-cases, inl, inr, List, [], ◌∷◌, ◌++◌,
  length, length-append, ==_iff, All, All-append, arith, ok, returned, splice, replicate,
}
use hobo.Log.Event.{Envelope}
use hobo.Log.Format.{Fits, write_committed, Codec, header_size, pack_header, frame_of, encode_frame}
use hobo.Log.Format.Frames.{encode_all}
use hobo.Log.Writer.{LogWriter, do_commit, commit, ensure_capacity, append}
use hobo.Log.Writer.Header.{length-pack_header, write_committed_lem}
use hobo.Log.Writer.Written.{
  Written, Numbered, Numbered-append, encode_all-append, length-encode_all, frame_behind, Roomy,
  grow_until-Roomy,
}

-- The envelope that `append` writes.
abbrev pub next_envelope : {E : Type 0} → LogWriter → E → ℕ → Envelope E
next_envelope w event ts_ns = record { seq = w.last_seq + 1; ts_ns = ts_ns; event = event }

module _ {E : Type 0} (codec : Codec E) where
  encode_frame-frame_of :
      (e : Envelope E) → Fits codec e → encode_frame codec e ≡ ok (frame_of codec e)
  unfolding encode_frame
  encode_frame-frame_of e fit = rw (lt→ltb _ _ fit.short) refl

  encode_all-snoc :
      (cs ps : List (Envelope E)) (e : Envelope E)
      → encode_all codec (cs ++ (ps ++ e ∷ [])) ≡ encode_all codec (cs ++ ps) ++ frame_of codec e
  unfolding encode_all
  encode_all-snoc cs ps e =
      ap (encode_all codec) (sym (append_assoc cs ps (e ∷ [])))
      ∙ encode_all-append codec (cs ++ ps) (e ∷ [])
      ∙ ap (λ l. encode_all codec (cs ++ ps) ++ l) (append-nil (frame_of codec e))

  length-snoc :
      (cs ps : List (Envelope E)) (e : Envelope E)
      → length (cs ++ (ps ++ e ∷ [])) ≡ length (cs ++ ps) + 1
  length-snoc cs ps e =
      ap length (sym (append_assoc cs ps (e ∷ []))) ∙ length-append (cs ++ ps) (e ∷ [])

  -- `append` on a writer whose file has room.
  Written-after :
      (w roomy : LogWriter) (cs ps : List (Envelope E)) (e : Envelope E)
      → Written codec w cs ps
      → Roomy codec w cs ps (length (frame_of codec e)) roomy
      → Fits codec e
      → e.seq ≡ w.last_seq + 1
      → Written codec
          (record roomy {
            mm = splice roomy.mm (header_size + roomy.write_offset) (frame_of codec e);
            write_offset = roomy.write_offset + length (frame_of codec e);
            last_seq = w.last_seq + 1;
          })
          cs
          (ps ++ e ∷ [])
  Written-after w roomy cs ps e h r fit numbered =
      let k = r.still_written in
      let snoc = length-snoc cs ps e in
      let header = pack_header roomy.capacity roomy.committed_offset (length cs) in
      let again = append_assoc cs ps (e ∷ []) in
      record {
        room = k.room - length (frame_of codec e);
        mm_is =
            frame_behind codec roomy.mm header (encode_all codec (cs ++ ps)) (frame_of codec e)
              k.room (header_size + roomy.write_offset) k.mm_is
              (omega (
                arith,
                k.written_is,
                length-pack_header roomy.capacity roomy.committed_offset (length cs),
              ))
              (omega (arith, k.room_is, r.has_room))
            ∙ ap (λ l. header ++ (l ++ replicate (k.room - length (frame_of codec e)) 0))
                (sym (encode_all-snoc cs ps e));
        room_is = omega (arith, k.room_is, r.has_room);
        committed_is = k.committed_is;
        written_is = omega (
          arith,
          k.written_is,
          ap length (encode_all-snoc cs ps e),
          length-append (encode_all codec (cs ++ ps)) (frame_of codec e),
        );
        seq_is = omega (arith, h.seq_is, snoc);
        all_fit =
            subst (All (Fits codec)) again
              (All-append (Fits codec) (cs ++ ps) (e ∷ []) h.all_fit (fit, tt));
        numbered =
            subst (Numbered 0) again
              (Numbered-append codec 0 (cs ++ ps) e h.numbered (omega (arith, h.seq_is)));
        has_capacity = k.has_capacity;
        grows = k.grows;
      }

  -- `append` returns the envelope with the next sequence number, and the file holds it behind the
  -- envelopes that it held, however often it had to grow: where the writer's file holds the
  -- committed and the pending envelopes, and the text of the new one is not empty, has a length that
  -- fits into four bytes, and is read back.
  pub append-Written :
      (w : LogWriter) (cs ps : List (Envelope E)) (event : E) (ts_ns : ℕ)
      → Written codec w cs ps
      → Fits codec (next_envelope w event ts_ns)
      → (w' : LogWriter) × (append codec w event ts_ns ≡ returned (next_envelope w event ts_ns) w')
        × Written codec w' cs (ps ++ next_envelope w event ts_ns ∷ [])
  unfolding append ensure_capacity
  append-Written w cs ps event ts_ns h fit =
      let e = next_envelope w event ts_ns in
      let needed = length (frame_of codec e) in
      let roomy = grow_until-Roomy codec (w.write_offset + needed) w cs ps needed h (omega arith) in
      (
        _,
        rw (encode_frame-frame_of e fit, append) refl,
        Written-after w (ensure_capacity w needed) cs ps e h roomy fit refl,
      )

  none_pending :
      (cs ps : List (Envelope E))
      → length (encode_all codec (cs ++ ps)) ≡ length (encode_all codec cs)
      → ps ≡ []
  none_pending cs [] e = refl
  none_pending cs (p ∷ ps) e = absurd (
      omega (
        arith,
        ap length (encode_all-append codec cs (p ∷ ps)),
        length-append (encode_all codec cs) (encode_all codec (p ∷ ps)),
        length-encode_all codec (p ∷ ps),
      ))

  all_committed :
      (w : LogWriter) (cs ps : List (Envelope E))
      → Written codec w cs ps
      → Written codec (do_commit w) (cs ++ ps) []
  unfolding do_commit
  all_committed w cs ps h =
      let nil = append-nil (cs ++ ps) in
      record {
        room = h.room;
        mm_is =
            ap (λ l. write_committed l w.write_offset w.last_seq) h.mm_is
            ∙ write_committed_lem w.capacity w.committed_offset (length cs) w.write_offset
                w.last_seq _
            ∙ ap
                (λ k.
                  pack_header w.capacity w.write_offset k
                  ++ (encode_all codec (cs ++ ps) ++ replicate h.room 0))
                h.seq_is
            ∙ ap
                (λ l.
                  pack_header w.capacity w.write_offset (length (cs ++ ps))
                  ++ (encode_all codec l ++ replicate h.room 0))
                (sym nil);
        room_is = h.room_is;
        committed_is = h.written_is;
        written_is = h.written_is ∙ ap (λ l. length (encode_all codec l)) (sym nil);
        seq_is = h.seq_is ∙ ap length (sym nil);
        all_fit = subst (All (Fits codec)) (sym nil) h.all_fit;
        numbered = subst (Numbered 0) (sym nil) h.numbered;
        has_capacity = h.has_capacity;
        grows = h.grows;
      }

  -- `commit` makes every envelope that was appended a committed one.
  pub commit-Written :
      (w : LogWriter) (cs ps : List (Envelope E))
      → Written codec w cs ps
      → Written codec (commit w).1 (cs ++ ps) []
  unfolding commit
  commit-Written w cs ps h = elim (Bool-cases (w.write_offset == w.committed_offset)) [
    | inr e ↦ rw e (all_committed w cs ps h)
    | inl e ↦
        let none =
          none_pending cs ps
            (sym h.written_is ∙ (==_iff w.write_offset w.committed_offset).0 e ∙ h.committed_is) in
        let same : cs ≡ cs ++ ps = sym (append-nil cs) ∙ ap (λ l. cs ++ l) (sym none) in
        rw e (subst (λ l. Written codec w l []) same (subst (Written codec w cs) none h))
  ]

  -- What `append` returns.
  pub append-next_envelope :
      (w w' : LogWriter) (event : E) (ts_ns : ℕ) (e : Envelope E)
      → append codec w event ts_ns ≡ returned e w'
      → e ≡ next_envelope w event ts_ns
  unfolding append
  append-next_envelope w w' event ts_ns e h =
      elim (Result-cases (encode_frame codec (next_envelope w event ts_ns))) [
        | inr (x, r) ↦ cc (rw (r, append) at h)
        | inl (frame, r) ↦ cc (rw (r, append) at h)
      ]
