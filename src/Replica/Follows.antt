-- ===== src/Replica/Follows.antt =====
-- A poll of the replica folds what the log committed since the last one, once.
use Prim.Native.Nat.{◌+◌, ◌-◌, ◌^◌}
use mathlib.Core.List.{append_assoc, append-nil}
use mathlib.Core.Path.{subst}
use hobo.Prelude.{
  ℕ, suc, take-append_more, Bool-cases, ltb_no→le, leb→le, after, inl, inr, ◌<◌, ◌≤◌, ◌≡◌, refl,
  sym, ap, ◌∙◌, false, none, List, [], ◌∷◌, ◌++◌, length, length-append, All, leb, ltb,
  if◌then◌else◌, Bytes, take, replicate, ok, returned, arith,
}
use hobo.Float.{Num}
use hobo.Risk.State.{State}
use hobo.Log.Event.{LogEvent, Envelope}
use hobo.Log.Format.{
  Codec, Fits, header_size, pack_header, unpack_header, replay_range, iter_frames_with_offsets,
  decode_frame_at,
}
use hobo.Log.Format.Frames.{encode_all, iter_frames-written, decode_frame_at-limit}
use hobo.Log.Writer.{LogWriter}
use hobo.Log.Writer.Header.{length-pack_header, unpack_header-pack_header}
use hobo.Log.Writer.Written.{Written, encode_all-append, length-encode_all, length-mm}
use hobo.Log.Writer.Recovered.{envelopes-with_offsets, All-first}
use hobo.Log.Writer.Scanned.{All-second}
use hobo.Replica.{ReplicaTail, fold_all, fold_new, poll_once}

leb_no : (a b : ℕ) → b < a → leb a b ≡ false
leb_no a b h = ground arith

module _ {E : Type 0} (codec : Codec E) where
  -- The frames that were committed behind the first ones.
  later_frames :
      (buf rest : Bytes) (c o q : ℕ) (xs ys : List (Envelope E))
      → buf ≡ pack_header c o q ++ (encode_all codec (xs ++ ys) ++ rest)
      → o ≡ length (encode_all codec (xs ++ ys))
      → All (Fits codec) (xs ++ ys)
      → replay_range codec buf (length (encode_all codec xs)) o ≡ ok ys
  unfolding replay_range iter_frames_with_offsets
  later_frames buf rest c o q xs ys is committed fit =
      let limit = header_size + o in
      let start = header_size + length (encode_all codec xs) in
      let header = pack_header c o q in
      let page = length-pack_header c o q in
      let sizes =
        ap length (encode_all-append codec xs ys)
        ∙ length-append (encode_all codec xs) (encode_all codec ys) in
      let at_end : limit ≡ start + length (encode_all codec ys) = omega (arith, sizes, committed) in
      let frames =
        iter_frames-written codec ys (suc limit) buf (header ++ encode_all codec xs) rest start
          limit
          (is
            ∙ ap (λ l. header ++ l)
                (ap (λ l. l ++ rest) (encode_all-append codec xs ys)
                  ∙ append_assoc (encode_all codec xs) (encode_all codec ys) rest)
            ∙ sym (append_assoc header (encode_all codec xs) (encode_all codec ys ++ rest)))
          (omega (arith, length-append header (encode_all codec xs), page))
          (All-second codec (Fits codec) xs ys fit)
          (omega (arith, length-encode_all codec ys, at_end)) (omega (arith, at_end))
          (subst (λ o. decode_frame_at codec buf o limit ≡ ok none) at_end
            (decode_frame_at-limit codec buf limit)) in
      rw frames (ap ok (envelopes-with_offsets codec start ys))

  -- What a map of the file shows that covers the header and the committed frames.
  mapped_is :
      (w : LogWriter) (cs ps : List (Envelope E)) (mapped : ℕ)
      → Written codec w cs ps
      → header_size + w.committed_offset ≤ mapped
      → (rest : Bytes) × (take mapped w.mm
          ≡ pack_header w.capacity w.committed_offset (length cs) ++ (encode_all codec cs ++ rest))
  mapped_is w cs ps mapped h covers =
      let header = pack_header w.capacity w.committed_offset (length cs) in
      let zeros : Bytes = replicate h.room 0 in
      let page = length-pack_header w.capacity w.committed_offset (length cs) in
      (
        take (mapped - length header - length (encode_all codec cs)) (encode_all codec ps ++ zeros),
        ap (take mapped) (
              h.mm_is
              ∙ ap (λ l. header ++ l)
                  (ap (λ l. l ++ zeros) (encode_all-append codec cs ps)
                    ∙ append_assoc (encode_all codec cs) (encode_all codec ps) zeros))
            ∙ take-append_more mapped header (encode_all codec cs ++ (encode_all codec ps ++ zeros))
                (omega (arith, page))
            ∙ ap (λ l. header ++ l)
                (take-append_more (mapped - length header) (encode_all codec cs)
                  (encode_all codec ps ++ zeros) (omega (arith, page, h.committed_is))),
      )

  -- The header is read from any map that covers it.
  header_of_map :
      (w : LogWriter) (cs ps : List (Envelope E)) (mapped : ℕ)
      → Written codec w cs ps
      → w.capacity < 2 ^ 63
      → header_size ≤ mapped
      → unpack_header (take mapped w.mm)
        ≡ ok (record {
          version = 1;
          capacity = w.capacity;
          committed_offset = w.committed_offset;
          last_seq = length cs;
        })
  header_of_map w cs ps mapped h small covers =
      let header = pack_header w.capacity w.committed_offset (length cs) in
      let page = length-pack_header w.capacity w.committed_offset (length cs) in
      let sizes =
        ap length (encode_all-append codec cs ps)
        ∙ length-append (encode_all codec cs) (encode_all codec ps) in
      ap unpack_header
        (ap (take mapped) h.mm_is ∙ take-append_more mapped header _ (omega (arith, page)))
      ∙ unpack_header-pack_header w.capacity w.committed_offset (length cs) _ small
          (omega (arith, sizes, h.committed_is, h.written_is, h.room_is))
          (omega
            (arith, sizes, h.committed_is, h.written_is, h.room_is, length-encode_all codec cs))

  nothing_new :
      (xs ys : List (Envelope E))
      → length (encode_all codec (xs ++ ys)) ≤ length (encode_all codec xs)
      → ys ≡ []
  nothing_new xs [] h = refl
  nothing_new xs (y ∷ ys) h = absurd (
      omega (
        arith,
        ap length (encode_all-append codec xs (y ∷ ys)),
        length-append (encode_all codec xs) (encode_all codec (y ∷ ys)),
        length-encode_all codec (y ∷ ys),
      ))

module _ {F : Type 0} ⦃n : Num F⦄ (codec : Codec (LogEvent F)) where
  -- The map of a poll, and that it covers the committed frames.
  abbrev remapped : ReplicaTail F → Bytes → ℕ → ℕ
  remapped replica file committed_offset =
      if ltb replica.mapped (header_size + committed_offset) then length file else replica.mapped

  remapped_covers :
      (w : LogWriter) (cs ps : List (Envelope (LogEvent F))) (replica : ReplicaTail F)
      → Written codec w cs ps
      → header_size + w.committed_offset ≤ remapped replica w.mm w.committed_offset
  remapped_covers w cs ps replica h =
      let sizes =
        ap length (encode_all-append codec cs ps)
        ∙ length-append (encode_all codec cs) (encode_all codec ps) in
      elim (Bool-cases (ltb replica.mapped (header_size + w.committed_offset))) [
        | inl short ↦ rw short (
            omega
              (arith, length-mm codec w cs ps h, sizes, h.committed_is, h.written_is, h.room_is))
        | inr long ↦ rw long (ltb_no→le replica.mapped _ long)
      ]

  fold_new-folds :
      (w : LogWriter) (xs ys ps : List (Envelope (LogEvent F))) (replica : ReplicaTail F)
      (s : State F)
      → Written codec w (xs ++ ys) ps
      → replica.folded_offset ≡ length (encode_all codec xs)
      → fold_all replica.state ys ≡ returned tt s
      → fold_new codec replica w.mm w.committed_offset
        ≡ returned (length ys) (record {
          state = s;
          mapped = remapped replica w.mm w.committed_offset;
          folded_offset = w.committed_offset;
        })
  unfolding fold_new
  fold_new-folds w xs ys ps replica s h offset folds =
      let size = remapped replica w.mm w.committed_offset in
      let (rest, is) =
        mapped_is codec w (xs ++ ys) ps size h (remapped_covers w (xs ++ ys) ps replica h) in
      let read : replay_range codec (take size w.mm) replica.folded_offset w.committed_offset
          ≡ ok ys =
        ap (λ o. replay_range codec (take size w.mm) o w.committed_offset) offset
        ∙ later_frames codec (take size w.mm) rest w.capacity w.committed_offset (length (xs ++ ys))
            xs ys is h.committed_is (All-first codec (Fits codec) (xs ++ ys) ps h.all_fit) in
      rw (read, fold_new) (rw folds refl)

  -- One poll folds what was committed since the last one, each event once and in order: where the
  -- replica has folded the events `xs` of a log that has committed `xs` and then `ys`, and folding
  -- `ys` returns a state, the poll returns the number of the `ys`, and the replica has that state and
  -- the committed offset. The log is one that the writer wrote, of less than 2^63 bytes, and the
  -- replica's map, which may be too short, covers the header.
  pub poll_once-folds :
      (w : LogWriter) (xs ys ps : List (Envelope (LogEvent F))) (replica : ReplicaTail F)
      (s : State F)
      → Written codec w (xs ++ ys) ps
      → w.capacity < 2 ^ 63
      → header_size ≤ replica.mapped
      → replica.folded_offset ≡ length (encode_all codec xs)
      → fold_all replica.state ys ≡ returned tt s
      → (replica' : ReplicaTail F) × (poll_once codec replica w.mm ≡ returned (length ys) replica')
        × (replica'.state ≡ s)
        × (replica'.folded_offset ≡ w.committed_offset)
  unfolding poll_once fold_all
  poll_once-folds w xs ys ps replica s h small covers offset folds =
      let header = header_of_map codec w (xs ++ ys) ps replica.mapped h small covers in
      elim (Bool-cases (leb w.committed_offset replica.folded_offset)) [
        | inr behind ↦ (
          record {
            state = s;
            mapped = remapped replica w.mm w.committed_offset;
            folded_offset = w.committed_offset;
          },
          rw (header, poll_once) (rw behind (fold_new-folds w xs ys ps replica s h offset folds)),
          refl,
          refl,
        )
        | inl caught_up ↦
            let none_left =
              nothing_new codec xs ys
                (omega (arith, leb→le _ _ caught_up, h.committed_is, offset)) in
            (
              replica,
              rw (header, poll_once)
                  (rw caught_up (ap (λ l. returned (length l) replica) (sym none_left))),
              ap after (ap (fold_all replica.state) (sym none_left) ∙ folds),
              offset
                  ∙ ap (λ l. length (encode_all codec l))
                      (sym (append-nil xs) ∙ ap (λ l. xs ++ l) (sym none_left))
                  ∙ sym h.committed_is,
            )
      ]
