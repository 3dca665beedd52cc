-- ===== src/Log/Writer/Written.antt =====
-- What the writer's file holds: the envelopes that were committed, those appended since, and zeros.
use Prim.Native.Nat.{◌+◌, ◌-◌, ◌*◌}
use mathlib.Core.List.{append_assoc}
use native.Mathlib.Nat.{mul-le-mul_left}
use hobo.Prelude.{
  ℕ, zero, suc, ◌≡◌, refl, sym, ap, ◌∙◌, ◌<◌, ◌≤◌, ltb, ltb_no→le, Bool-cases, inl, inr, List, [],
  ◌∷◌, ◌++◌, length, length-append, All, Bytes, splice, splice_at, replicate, length-replicate,
  replicate_add, ftruncate, take, take_all, arith,
}
use hobo.Log.Event.{Envelope}
use hobo.Log.Format.{Fits, write_capacity, Codec, header_size, pack_header, frame_of}
use hobo.Log.Format.Frames.{length-frame_of, encode_all}
use hobo.Log.Writer.{LogWriter, grow, grow_until}
use hobo.Log.Writer.Header.{length-pack_header, write_capacity_lem}

-- Consecutive sequence numbers, from the one after `n`.
abbrev pub Numbered : {E : Type 0} → ℕ → List (Envelope E) → Type 0
Numbered n [] = Unit
Numbered n (e ∷ es) = (e.seq ≡ n + 1) × Numbered (n + 1) es

module _ {E : Type 0} (codec : Codec E) where
  pub encode_all-append :
      (es ds : List (Envelope E))
      → encode_all codec (es ++ ds) ≡ encode_all codec es ++ encode_all codec ds
  unfolding encode_all
  encode_all-append [] ds = refl
  encode_all-append (e ∷ es) ds =
      ap (λ l. frame_of codec e ++ l) (encode_all-append es ds)
      ∙ sym (append_assoc (frame_of codec e) (encode_all codec es) (encode_all codec ds))

  -- A frame takes five bytes at least.
  pub length-encode_all : (es : List (Envelope E)) → length es ≤ length (encode_all codec es)
  unfolding encode_all
  length-encode_all [] = omega arith
  length-encode_all (e ∷ es) = omega (
    arith,
    length-encode_all es,
    length-append (frame_of codec e) (encode_all codec es),
    length-frame_of codec e,
  )

  pub record Written (w : LogWriter) (committed pending : List (Envelope E)) : Type 0 where
    pub room : ℕ
    pub mm_is :
        w.mm
        ≡ pack_header w.capacity w.committed_offset (length committed)
          ++ (encode_all codec (committed ++ pending) ++ replicate room 0)
    pub room_is : w.write_offset + room ≡ w.capacity
    pub committed_is : w.committed_offset ≡ length (encode_all codec committed)
    pub written_is : w.write_offset ≡ length (encode_all codec (committed ++ pending))
    pub seq_is : w.last_seq ≡ length (committed ++ pending)
    pub all_fit : All (Fits codec) (committed ++ pending)
    pub numbered : Numbered 0 (committed ++ pending)
    pub has_capacity : 0 < w.capacity
    pub grows : 2 ≤ w.growth_factor

  pub length-mm :
      (w : LogWriter) (cs ps : List (Envelope E))
      → Written w cs ps
      → length w.mm ≡ header_size + w.capacity
  length-mm w cs ps h =
      ap length h.mm_is
      ∙ omega (
        arith,
        length-append (pack_header w.capacity w.committed_offset (length cs))
            (encode_all codec (cs ++ ps) ++ replicate h.room 0),
        length-append (encode_all codec (cs ++ ps)) (replicate h.room 0),
        length-replicate {A = ℕ} h.room 0,
        length-pack_header w.capacity w.committed_offset (length cs),
        h.room_is,
        h.written_is,
      )

  -- Zeros are added behind the zeros.
  ftruncate_zeros :
      (mm header written : Bytes) (room more n : ℕ)
      → mm ≡ header ++ (written ++ replicate room 0)
      → n ≡ length mm + more
      → ftruncate mm n ≡ header ++ (written ++ replicate (room + more) 0)
  ftruncate_zeros mm header written room more n e f =
      let whole : take n mm ≡ mm = take_all n mm (omega arith) in
      let missing : n - length mm ≡ more = omega arith in
      ap (λ l. l ++ replicate (n - length mm) 0) (whole ∙ e)
      ∙ ap (λ k. (header ++ (written ++ replicate room 0)) ++ replicate k 0) missing
      ∙ append_assoc header (written ++ replicate room 0) (replicate more 0)
      ∙ ap (λ l. header ++ l)
          (append_assoc written (replicate room 0) (replicate more 0)
            ∙ ap (λ l. written ++ l) (replicate_add room more 0))

  -- Growing keeps what is written.
  grow-Written :
      (w : LogWriter) (cs ps : List (Envelope E)) → Written w cs ps → Written (grow w) cs ps
  unfolding grow
  grow-Written w cs ps h =
      let larger : w.capacity * 2 ≤ w.capacity * w.growth_factor =
        mul-le-mul_left w.capacity h.grows in
      let more = w.capacity * w.growth_factor - w.capacity in
      let size = length-mm w cs ps h in
      let header = pack_header w.capacity w.committed_offset (length cs) in
      let written = encode_all codec (cs ++ ps) in
      record {
        room = h.room + more;
        mm_is =
            ap (λ l. write_capacity l (w.capacity * w.growth_factor))
              (ftruncate_zeros w.mm header written h.room more _ h.mm_is (omega arith))
            ∙ write_capacity_lem w.capacity w.committed_offset (length cs) _ _;
        room_is = omega (arith, h.room_is);
        committed_is = h.committed_is;
        written_is = h.written_is;
        seq_is = h.seq_is;
        all_fit = h.all_fit;
        numbered = h.numbered;
        has_capacity = omega (arith, h.has_capacity);
        grows = h.grows;
      }

  -- With fuel for every missing byte, the loop ends where the frame has room.
  pub record Roomy (w : LogWriter) (cs ps : List (Envelope E)) (needed : ℕ) (w' : LogWriter)
      : Type 0 where
    pub still_written : Written w' cs ps
    pub has_room : w'.write_offset + needed ≤ w'.capacity
    pub offset_kept : w'.write_offset ≡ w.write_offset

  pub grow_until-Roomy :
      (fuel : ℕ) (w : LogWriter) (cs ps : List (Envelope E)) (needed : ℕ)
      → Written w cs ps
      → w.write_offset + needed ≤ w.capacity + fuel
      → Roomy w cs ps needed (grow_until fuel w needed)
  unfolding grow_until grow
  grow_until-Roomy zero w cs ps needed h enough = record {
    still_written = h;
    has_room = omega arith;
    offset_kept = refl;
  }
  grow_until-Roomy (suc fuel) w cs ps needed h enough =
      elim (Bool-cases (ltb w.capacity (w.write_offset + needed))) [
        | inr e ↦
            rw e (record {
              still_written = h;
              has_room = ltb_no→le w.capacity _ e;
              offset_kept = refl;
            })
        | inl e ↦
            let larger : w.capacity * 2 ≤ w.capacity * w.growth_factor =
              mul-le-mul_left w.capacity h.grows in
            let r =
              grow_until-Roomy fuel (grow w) cs ps needed (grow-Written w cs ps h)
                (omega (arith, h.has_capacity)) in
            rw e (record {
              still_written = r.still_written;
              has_room = r.has_room;
              offset_kept = r.offset_kept;
            })
      ]

  room_for :
      (n room : ℕ) → n ≤ room → replicate {A = ℕ} room 0 ≡ replicate n 0 ++ replicate (room - n) 0
  room_for n room h = sym (replicate_add n (room - n) 0 ∙ ap (λ k. replicate k 0) (omega arith))

  -- A frame takes the place of zeros behind what is written.
  pub frame_behind :
      (mm header written frame : Bytes) (room offset : ℕ)
      → mm ≡ header ++ (written ++ replicate room 0)
      → offset ≡ length header + length written
      → length frame ≤ room
      → splice mm offset frame ≡ header ++ ((written ++ frame) ++ replicate (room - length frame) 0)
  frame_behind mm header written frame room offset e at fits =
      let zeros = replicate {A = ℕ} (room - length frame) 0 in
      splice_at mm (header ++ written) (replicate (length frame) 0) frame zeros offset
        (e
          ∙ ap (λ l. header ++ (written ++ l)) (room_for (length frame) room fits)
          ∙ sym (append_assoc header written _))
        (at ∙ sym (length-append header written)) (length-replicate (length frame) 0)
      ∙ append_assoc header written (frame ++ zeros)
      ∙ ap (λ l. header ++ l) (sym (append_assoc written frame zeros))

  pub Numbered-append :
      (n : ℕ) (es : List (Envelope E)) (e : Envelope E)
      → Numbered n es
      → e.seq ≡ n + length es + 1
      → Numbered n (es ++ e ∷ [])
  Numbered-append n [] e h k = (omega arith, tt)
  Numbered-append n (d ∷ es) e (hd, h) k = (hd, Numbered-append (n + 1) es e h (omega arith))
