-- ===== src/Log/Snapshot.antt =====
-- hobo/log/snapshot.py: snapshots of the state in a directory, which is a dictionary from the names of
-- its files to their text; a directory that is not there is empty. Names are in ASCII. `json.dump`
-- and `json.load` are the parameter `Json`.
pub mod Names
pub mod Kept
pub mod Newest
use Prim.Native.Nat.{◌-◌}
use Prim.Native.Char.{code}
use Prim.Native.String.{◌++◌ as ◌^◌}
use text.Mathlib.Text.{is_le}
use Prim.Native.String.{compare as compare_text}
use hobo.Prelude.{
  ℕ, zero, suc, String, Bool, true, false, Option, none, some, List, [], ◌∷◌, length, take, ltb,
  ◌==◌, ◌||◌, ◌≡◌, if◌then◌else◌, str_eq, Result, ok, key_error, or_raise, ◌>>=◌,
}
use hobo.Prelude.Dict
use hobo.Prelude.Dict.{Dict}
use hobo.Prelude.Data.{Data, int, object, end, field, item}
use hobo.Prelude.Decimal.{decimal, read_digits, begins_with_digit}
use hobo.Float.{Num}
use hobo.Risk.State.{State}
use hobo.Risk.Saved.{state_to_dict, state_from_dict}

-- The text of a value.
pub record Json (F : Type 0) : Type 0 where
  pub dumps : Data F → String
  pub loads : String → Result (Data F)

-- What is dumped is loaded again as it was.
abbrev pub Reads : {F : Type 0} → Json F → Data F → Type 0
Reads json d = json.loads (json.dumps d) ≡ ok d

unfoldable pub snapshot_filename : ℕ → String
snapshot_filename seq = "snapshot-" ^ (decimal seq ^ ".json")

-- What follows a prefix of a text.
unfoldable pub strip_prefix : String → String → Option String
strip_prefix String.[] s = some s
strip_prefix (String.◌∷◌ c p) String.[] = none
strip_prefix (String.◌∷◌ c p) (String.◌∷◌ d s) = if code c == code d then strip_prefix p s else none

-- The digits of `_SNAPSHOT_RE` and what must follow them; `$` is also before a last newline.
abbrev pub whole_number : ℕ × String → Option ℕ
whole_number (seq, rest) = if str_eq rest ".json" || str_eq rest ".json\n" then some seq else none

abbrev pub numbered : Option String → Option ℕ
numbered none = none
numbered (some s) = if begins_with_digit s then whole_number (read_digits 0 s) else none

-- `_SNAPSHOT_RE.match(name)`, with the number of its group.
unfoldable pub snapshot_seq : String → Option ℕ
snapshot_seq name = numbered (strip_prefix "snapshot-" name)

-- The order of pairs of a number and a name.
abbrev pub entry_le : ℕ × String → ℕ × String → Bool
entry_le (a, m) (b, k) = if a == b then is_le (compare_text m k) else ltb a b

unfoldable pub insert : ℕ × String → List (ℕ × String) → List (ℕ × String)
insert x [] = x ∷ []
insert x (y ∷ ys) = if entry_le x y then x ∷ y ∷ ys else y ∷ insert x ys

-- `sorted`
unfoldable pub sort : List (ℕ × String) → List (ℕ × String)
sort [] = []
sort (x ∷ xs) = insert x (sort xs)

unfoldable pub found : Dict String → List (ℕ × String)
found [] = []
found ((name, content) ∷ directory) = elim (snapshot_seq name) [
  | none ↦ found directory
  | some seq ↦ (seq, name) ∷ found directory
]

-- `_list_snapshots`
unfoldable pub list_snapshots : Dict String → List (ℕ × String)
list_snapshots directory = sort (found directory)

-- `os.remove`, and a file that is written. Files have no order.
unfoldable pub remove : Dict String → String → Dict String
remove [] name = []
remove ((j, content) ∷ directory) name =
    if str_eq j name then remove directory name else (j, content) ∷ remove directory name

abbrev pub write_file : Dict String → String → String → Dict String
write_file directory name content = (name, content) ∷ remove directory name

-- `os.replace`
abbrev pub replace_file : Dict String → String → String → Dict String
replace_file directory source target = elim (Dict.get directory source) [
  | none ↦ directory
  | some content ↦ write_file (remove directory source) target content
]

unfoldable pub remove_all : List (ℕ × String) → Dict String → Dict String
remove_all [] directory = directory
remove_all ((seq, name) ∷ entries) directory = remove_all entries (remove directory name)

-- `_prune_old_snapshots`
unfoldable pub prune : Dict String → ℕ → Dict String
prune directory zero = directory
prune directory (suc k) =
    let snapshots = list_snapshots directory in
    remove_all (take (length snapshots - suc k) snapshots) directory

abbrev pub last : List (ℕ × String) → Option (ℕ × String)
last [] = none
last (x ∷ []) = some x
last (x ∷ (y ∷ ys)) = last (y ∷ ys)

module _ {F : Type 0} where
  unfoldable pub payload_of : State F → Data F
  payload_of state = object (
      field "schema_version" (int 1)
        (field "seq" (int state.last_seq) (field "state" (state_to_dict state) end)))

module _ {F : Type 0} (json : Json F) where
  -- `write_snapshot`: the directory after it.
  unfoldable pub write_snapshot : Dict String → State F → ℕ → Dict String
  write_snapshot directory state keep_last =
      let final = snapshot_filename state.last_seq in
      let tmp = final ^ ".tmp" in
      let written = write_file directory tmp (json.dumps (payload_of state)) in
      prune (replace_file written tmp final) keep_last

  abbrev pub payload_at : Dict String → Option (ℕ × String) → Result (Option (Data F))
  payload_at directory none = ok none
  payload_at directory (some entry) = do
    content ← or_raise (Dict.get directory entry.1) key_error
    payload ← json.loads content
    ok (some payload)

  -- `load_latest_snapshot_payload`
  unfoldable pub load_latest_snapshot_payload : Dict String → Result (Option (Data F))
  load_latest_snapshot_payload directory = payload_at directory (last (list_snapshots directory))

module _ {F : Type 0} ⦃n : Num F⦄ where
  abbrev pub state_of_payload : Option (Data F) → Result (Option (State F))
  state_of_payload none = ok none
  state_of_payload (some payload) = do
    saved ← item payload "state"
    state ← state_from_dict saved
    ok (some state)

  -- `load_latest_state`
  unfoldable pub load_latest_state : Json F → Dict String → Result (Option (State F))
  load_latest_state json directory = do
    payload ← load_latest_snapshot_payload json directory
    state_of_payload payload
