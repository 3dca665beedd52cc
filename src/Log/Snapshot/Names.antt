-- ===== src/Log/Snapshot/Names.antt =====
-- The number in the name of a snapshot (hobo/log/snapshot.py).
use Prim.Native.Char.{code}
use Prim.Native.String.{◌++◌ as ◌^◌}
use text.Mathlib.TextLemmas.{cons-append, nil-append}
use hobo.Prelude.{ℕ, String, ◌≡◌, refl, ap, ◌∙◌, some, ==_iff}
use hobo.Prelude.Decimal.{decimal, read_digits, read_digits-decimal, decimal_first}
use hobo.Log.Snapshot.{snapshot_filename, strip_prefix, whole_number, numbered, snapshot_seq}

strip_prefix-append : (p s : String) → strip_prefix p (p ^ s) ≡ some s
unfolding strip_prefix
strip_prefix-append String.[] s = ap some (nil-append s)
strip_prefix-append (String.◌∷◌ c p) s =
    rw (cons-append c p s) (rw ((==_iff (code c) (code c)).1 refl) (strip_prefix-append p s))

ends : (seq : ℕ) → read_digits seq ".json" ≡ (seq, ".json")
unfolding read_digits
ends seq = refl

-- The name of a snapshot is recognised, with its number.
pub snapshot_seq-snapshot_filename : (seq : ℕ) → snapshot_seq (snapshot_filename seq) ≡ some seq
unfolding snapshot_seq snapshot_filename
snapshot_seq-snapshot_filename seq =
    ap numbered (strip_prefix-append "snapshot-" (decimal seq ^ ".json"))
    ∙ rw (decimal_first seq ".json") (ap whole_number (read_digits-decimal seq ".json" ∙ ends seq))
