-- ===== src/Log/Format/Frames.antt =====
-- What hobo/log/format.py reads back of the frames that it wrote.
use Prim.Native.Nat.{◌+◌, ◌-◌}
use mathlib.Core.List.{append_assoc}
use mathlib.Core.Path.{subst}
use hobo.Prelude.{
  ℕ, zero, suc, ◌≡◌, refl, sym, ap, ◌∙◌, none, some, List, [], ◌∷◌, ◌++◌, length, length-append,
  ltb, lt→ltb, ◌<◌, ◌≤◌, Bytes, slice, slice_at, ltb_no, ltb_no→le, not_zero, plus_zero, replicate,
  pack, length-pack, unpack, unpack-pack, unpack-zeros, length-replicate, replicate_add, Bool-cases,
  inl, inr, ok, arith, All,
}
use hobo.Log.Event.{Envelope}
use hobo.Log.Format.{
  Codec, Fits, frame_len_size, frame_of, field_at, decode_payload, decode_frame_at, iter_frames,
}

module _ {E : Type 0} (codec : Codec E) where
  pub length-frame_of : (e : Envelope E) → length (frame_of codec e) ≡ 5 + length (codec.dumps e)
  length-frame_of e =
      length-append (pack 4 (length (codec.dumps e))) _
      ∙ omega
          (arith, length-pack 4 (length (codec.dumps e)), length-append (codec.dumps e) (10 ∷ []))

  decode_payload-found :
      (buf : Bytes) (offset limit : ℕ) (e : Envelope E)
      → Fits codec e
      → let start = offset + frame_len_size in
        let len = length (codec.dumps e) in
        start + len + 1 ≤ limit
        → slice buf (start + len) (start + len + 1) ≡ 10 ∷ []
        → slice buf start (start + len) ≡ codec.dumps e
        → decode_payload codec buf offset limit len ≡ some (e, start + len + 1)
  unfolding decode_payload
  decode_payload-found buf offset limit e fit fits newline payload =
      rw
        (
          not_zero (length (codec.dumps e)) fit.nonempty,
          ltb_no limit (offset + frame_len_size + length (codec.dumps e) + 1) fits,
          newline,
          payload,
          fit.readable,
        )
        refl

  -- A frame is read back where it was written, whatever stands before and behind it.
  pub decode_frame_at-written :
      (buf pre post : Bytes) (limit : ℕ) (e : Envelope E)
      → buf ≡ pre ++ (frame_of codec e ++ post)
      → Fits codec e
      → length pre + length (frame_of codec e) ≤ limit
      → decode_frame_at codec buf (length pre) limit
        ≡ ok (some (e, length pre + length (frame_of codec e)))
  unfolding decode_frame_at
  decode_frame_at-written buf pre post limit e is fits within =
      let payload = codec.dumps e in
      let prefix = pack 4 (length payload) in
      let size = length-frame_of e in
      let long : length buf ≡ length pre + (length (frame_of codec e) + length post) =
        ap length is
        ∙ length-append pre (frame_of codec e ++ post)
        ∙ ap (λ n. length pre + n) (length-append (frame_of codec e) post) in
      let at_prefix : buf ≡ pre ++ (prefix ++ ((payload ++ 10 ∷ []) ++ post)) =
        is ∙ ap (λ l. pre ++ l) (append_assoc prefix (payload ++ 10 ∷ []) post) in
      let at_payload : buf ≡ (pre ++ prefix) ++ (payload ++ (10 ∷ [] ++ post)) =
        at_prefix
        ∙ sym (append_assoc pre prefix _)
        ∙ ap (λ l. (pre ++ prefix) ++ l) (append_assoc payload (10 ∷ []) post) in
      let at_newline : buf ≡ ((pre ++ prefix) ++ payload) ++ (10 ∷ [] ++ post) =
        at_payload ∙ sym (append_assoc (pre ++ prefix) payload _) in
      let len_prefix : length (pre ++ prefix) ≡ length pre + 4 =
        length-append pre prefix ∙ ap (λ n. length pre + n) (length-pack 4 (length payload)) in
      let len_payload : length ((pre ++ prefix) ++ payload) ≡ length pre + 4 + length payload =
        length-append (pre ++ prefix) payload ∙ ap (λ n. n + length payload) len_prefix in
      let read_len : field_at buf (length pre) (length pre + 4) ≡ length payload =
        ap unpack (
          slice_at buf pre prefix _ (length pre) (length pre + 4) at_prefix refl
            (omega (arith, length-pack 4 (length payload))))
        ∙ unpack-pack 4 (length payload) (omega arith) in
      rw
        (
          ltb_no limit (length pre + 4) (omega arith),
          ltb_no (length buf) (length pre + 4) (omega arith),
          read_len,
        )
        (ap ok (
          decode_payload-found buf (length pre) limit e fits (omega arith)
            (slice_at buf ((pre ++ prefix) ++ payload) (10 ∷ []) post _ _ at_newline
              (sym len_payload) (omega arith))
            (slice_at buf (pre ++ prefix) payload (10 ∷ [] ++ post) _ _ at_payload (sym len_prefix)
              (omega arith))
          ∙ ap (λ n. some (e, n)) (omega arith)))

  -- At the limit, and where the file was filled with zeros, there is no frame.
  pub decode_frame_at-limit :
      (buf : Bytes) (limit : ℕ) → decode_frame_at codec buf limit limit ≡ ok none
  unfolding decode_frame_at
  decode_frame_at-limit buf limit = rw (lt→ltb limit (limit + 4) (omega arith)) refl

  decode_payload-empty :
      (buf : Bytes) (offset limit : ℕ) → decode_payload codec buf offset limit 0 ≡ none
  unfolding decode_payload
  decode_payload-empty buf offset limit = refl

  pub decode_frame_at-zeros :
      (buf pre : Bytes) (k limit : ℕ)
      → buf ≡ pre ++ replicate k 0
      → limit ≤ length buf
      → decode_frame_at codec buf (length pre) limit ≡ ok none
  unfolding decode_frame_at
  decode_frame_at-zeros buf pre k limit is within = elim (Bool-cases (ltb limit (length pre + 4))) [
    | inl short ↦ rw short refl
    | inr enough ↦
        let room : length pre + 4 ≤ limit = ltb_no→le limit (length pre + 4) enough in
        let long : length buf ≡ length pre + k =
          ap length is
          ∙ length-append pre (replicate k 0)
          ∙ ap (λ n. length pre + n) (length-replicate k 0) in
        let four : replicate k 0 ≡ replicate 4 0 ++ replicate (k - 4) 0 =
          sym (replicate_add 4 (k - 4) 0 ∙ ap (λ m. replicate m 0) (omega arith)) in
        let read_len : field_at buf (length pre) (length pre + 4) ≡ 0 =
          ap unpack (
            slice_at buf pre (replicate 4 0) (replicate (k - 4) 0) (length pre) (length pre + 4)
              (is ∙ ap (λ l. pre ++ l) four) refl (omega (arith, length-replicate {A = ℕ} 4 0)))
          ∙ unpack-zeros 4 in
        rw (enough, ltb_no (length buf) (length pre + 4) (omega arith), read_len)
          (ap ok (decode_payload-empty buf (length pre) limit))
  ]

  -- The data of a log, and the envelopes with the offset behind each one's frame.
  unfoldable pub encode_all : List (Envelope E) → Bytes
  encode_all [] = []
  encode_all (e ∷ es) = frame_of codec e ++ encode_all es

  unfoldable pub with_offsets : ℕ → List (Envelope E) → List (Envelope E × ℕ)
  with_offsets offset [] = []
  with_offsets offset (e ∷ es) =
      (e, offset + length (frame_of codec e)) ∷ with_offsets (offset + length (frame_of codec e)) es

  -- Frames in a row are read in their order, up to the first offset with no frame.
  pub iter_frames-written :
      (es : List (Envelope E)) (fuel : ℕ) (buf pre post : Bytes) (start limit : ℕ)
      → buf ≡ pre ++ (encode_all es ++ post)
      → start ≡ length pre
      → All (Fits codec) es
      → length es < fuel
      → start + length (encode_all es) ≤ limit
      → decode_frame_at codec buf (start + length (encode_all es)) limit ≡ ok none
      → iter_frames codec fuel buf start limit ≡ ok (with_offsets start es)
  unfolding iter_frames encode_all with_offsets
  iter_frames-written es zero buf pre post start limit is at fits enough within ends =
      absurd (omega arith)
  iter_frames-written [] (suc fuel) buf pre post start limit is at fits enough within ends =
      rw (rw (plus_zero start) at ends) refl
  iter_frames-written (e ∷ es) (suc fuel) buf pre post start limit is at (fit, fits) enough within
        ends =
      let frame = frame_of codec e in
      let size = length-append frame (encode_all es) in
      let here : buf ≡ pre ++ (frame ++ (encode_all es ++ post)) =
        is ∙ ap (λ l. pre ++ l) (append_assoc frame (encode_all es) post) in
      let found : decode_frame_at codec buf start limit ≡ ok (some (e, start + length frame)) =
        subst (λ o. decode_frame_at codec buf o limit ≡ ok (some (e, o + length frame))) (sym at)
          (decode_frame_at-written buf pre (encode_all es ++ post) limit e here fit
            (omega arith)) in
      let next_end : start + length frame + length (encode_all es)
          ≡ start + length (frame ++ encode_all es) =
        omega arith in
      let rest =
        iter_frames-written es fuel buf (pre ++ frame) post (start + length frame) limit
          (here ∙ sym (append_assoc pre frame _)) (omega (arith, length-append pre frame)) fits
          (omega arith) (omega arith)
          (subst (λ o. decode_frame_at codec buf o limit ≡ ok none) (sym next_end) ends) in
      rw (found, rest) refl
