-- ===== src/Log/Writer/Header.antt =====
-- The header page that the writer updates in place is the page with the new numbers.
use Prim.Native.Nat.{◌+◌, ◌^◌}
use mathlib.Core.List.{append_assoc}
use hobo.Prelude.{
  ℕ, ◌≡◌, refl, sym, ap, ◌∙◌, [], ◌++◌, length, length-append, ◌<◌, ◌≤◌, Bytes, slice, slice_at,
  splice_at, ltb_no, length-replicate, pack, length-pack, unpack, unpack-pack, ok, arith,
}
use hobo.Log.Format.{
  magic, header_size, padding, pack_header, unpack_header, write_capacity, write_committed,
  field_at,
}

pub length-pack_header : (c o s : ℕ) → length (pack_header c o s) ≡ header_size
unfolding pack_header
length-pack_header c o s = ground (
  arith,
  length-append (pack 4 1) (pack 8 c ++ (pack 8 o ++ (pack 8 s ++ padding))),
  length-append (pack 8 c) (pack 8 o ++ (pack 8 s ++ padding)),
  length-append (pack 8 o) (pack 8 s ++ padding),
  length-append (pack 8 s) padding,
  length-pack 4 1,
  length-pack 8 c,
  length-pack 8 o,
  length-pack 8 s,
  length-replicate {A = ℕ} 4060 0,
)

-- The magic and the version.
abbrev preamble : Bytes
preamble = magic ++ pack 4 1

length-preamble : 12 ≡ length preamble
length-preamble = omega (arith, length-pack 4 1)

-- The fields one after the other, with the file's data behind them.
header_split :
    (c o s : ℕ) (rest : Bytes)
    → pack_header c o s ++ rest
      ≡ preamble ++ (pack 8 c ++ (pack 8 o ++ (pack 8 s ++ (padding ++ rest))))
unfolding pack_header
header_split c o s rest = simp append_assoc

pub write_capacity_lem :
    (c o s c' : ℕ) (rest : Bytes)
    → write_capacity (pack_header c o s ++ rest) c' ≡ pack_header c' o s ++ rest
unfolding write_capacity
write_capacity_lem c o s c' rest =
    splice_at _ preamble (pack 8 c) (pack 8 c') _ 12 (header_split c o s rest) length-preamble
      (length-pack 8 c ∙ sym (length-pack 8 c'))
    ∙ sym (header_split c' o s rest)

-- The header up to the capacity, and up to the committed offset.
abbrev to_capacity : ℕ → Bytes
to_capacity c = preamble ++ pack 8 c

abbrev to_committed : ℕ → ℕ → Bytes
to_committed c o = to_capacity c ++ pack 8 o

length-to_capacity : (c : ℕ) → 20 ≡ length (to_capacity c)
length-to_capacity c =
    omega (arith, length-pack 8 c, length-preamble, length-append preamble (pack 8 c))

length-to_committed : (c o : ℕ) → 28 ≡ length (to_committed c o)
length-to_committed c o =
    omega (arith, length-pack 8 o, length-to_capacity c, length-append (to_capacity c) (pack 8 o))

split_offset :
    (c o s : ℕ) (rest : Bytes)
    → pack_header c o s ++ rest ≡ to_capacity c ++ (pack 8 o ++ (pack 8 s ++ (padding ++ rest)))
split_offset c o s rest = header_split c o s rest ∙ sym (append_assoc preamble (pack 8 c) _)

split_seq :
    (c o s : ℕ) (rest : Bytes)
    → pack_header c o s ++ rest ≡ to_committed c o ++ (pack 8 s ++ (padding ++ rest))
split_seq c o s rest = split_offset c o s rest ∙ sym (append_assoc (to_capacity c) (pack 8 o) _)

split_both :
    (c o s : ℕ) (rest : Bytes)
    → pack_header c o s ++ rest ≡ to_capacity c ++ ((pack 8 o ++ pack 8 s) ++ (padding ++ rest))
split_both c o s rest =
    split_offset c o s rest
    ∙ ap (λ l. to_capacity c ++ l) (sym (append_assoc (pack 8 o) (pack 8 s) (padding ++ rest)))

length-both : (o s : ℕ) → length (pack 8 o ++ pack 8 s) ≡ 16
length-both o s =
    omega (arith, length-append (pack 8 o) (pack 8 s), length-pack 8 o, length-pack 8 s)

pub write_committed_lem :
    (c o s o' s' : ℕ) (rest : Bytes)
    → write_committed (pack_header c o s ++ rest) o' s' ≡ pack_header c o' s' ++ rest
unfolding write_committed
write_committed_lem c o s o' s' rest =
    splice_at _ (to_capacity c) (pack 8 o ++ pack 8 s) (pack 8 o' ++ pack 8 s') _ 20
      (split_both c o s rest) (length-to_capacity c) (length-both o s ∙ sym (length-both o' s'))
    ∙ sym (split_both c o' s' rest)

read_q :
    (buf pre post : Bytes) (start stop v : ℕ)
    → buf ≡ pre ++ (pack 8 v ++ post)
    → start ≡ length pre
    → stop ≡ start + 8
    → v < 2 ^ 63
    → field_at buf start stop ≡ v
read_q buf pre post start stop v e f g small =
    ap unpack (slice_at buf pre (pack 8 v) post start stop e f (omega (arith, length-pack 8 v)))
    ∙ unpack-pack 8 v (omega arith)

-- The header that was packed is unpacked.
pub unpack_header-pack_header :
    (c o s : ℕ) (rest : Bytes)
    → c < 2 ^ 63
    → o < 2 ^ 63
    → s < 2 ^ 63
    → unpack_header (pack_header c o s ++ rest)
      ≡ ok (record { version = 1; capacity = c; committed_offset = o; last_seq = s })
unfolding unpack_header
unpack_header-pack_header c o s rest hc ho hs =
    let buf = pack_header c o s ++ rest in
    let long : header_size ≤ length buf =
      omega (arith, length-append (pack_header c o s) rest, length-pack_header c o s) in
    let at_version = header_split c o s rest ∙ append_assoc magic (pack 4 1) _ in
    let is_magic : slice buf 0 8 ≡ magic =
      slice_at buf [] magic
        (pack 4 1 ++ (pack 8 c ++ (pack 8 o ++ (pack 8 s ++ (padding ++ rest))))) 0 8 at_version
        refl refl in
    let version : field_at buf 8 12 ≡ 1 =
      ap unpack
        (slice_at buf magic (pack 4 1) _ 8 12 at_version refl (omega (arith, length-pack 4 1)))
      ∙ unpack-pack 4 1 (omega arith) in
    rw
      (
        ltb_no (length buf) header_size long,
        is_magic,
        version,
        read_q buf preamble _ 12 20 c (header_split c o s rest) length-preamble refl hc,
        read_q buf (to_capacity c) _ 20 28 o (split_offset c o s rest) (length-to_capacity c) refl
            ho,
        read_q buf (to_committed c o) _ 28 36 s (split_seq c o s rest) (length-to_committed c o)
            refl hs,
      )
      refl
