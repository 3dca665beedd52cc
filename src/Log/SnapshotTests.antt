-- ===== src/Log/SnapshotTests.antt =====
-- The theorems on snapshots of a state (hobo/log/snapshot.py, hobo/risk/state.py) at concrete inputs.
use hobo.Prelude.{String, ◌≡◌, ◌≤◌, refl, some, [], ◌∷◌, All, length, take, ok, arith}
use hobo.Prelude.Dict.{Dict}
use hobo.Prelude.Decimal.{read_digits}
use hobo.Float.Int.{int_num, ℤ}
use hobo.Risk.Tests.{desk_state}
use hobo.Risk.Saved.{state_to_dict, state_from_dict}
use hobo.Risk.Saved.Restored.{state_from_dict-state_to_dict}
use hobo.Log.Snapshot.{
  Json, strip_prefix, snapshot_seq, list_snapshots, insert, sort, found, remove, remove_all, prune,
  payload_of, write_snapshot, load_latest_state,
}
use hobo.Log.Snapshot.Kept.{length-prune}
use hobo.Log.Snapshot.Newest.{IsCurrent, load_latest_state-write_snapshot}

state_from_dict-state_to_dict_example : state_from_dict (state_to_dict desk_state) ≡ ok desk_state
state_from_dict-state_to_dict_example = state_from_dict-state_to_dict desk_state

-- Three snapshots, and a file that is none.
abbrev directory : Dict String
directory =
    ("snapshot-2.json", "two")
    ∷ ("snapshot-10.json", "ten")
    ∷ ("notes.txt", "")
    ∷ ("snapshot-1.json", "one")
    ∷ []

-- The numbers are compared, not the names.
two_newest :
    list_snapshots (prune directory 2) ≡ (2, "snapshot-2.json") ∷ (10, "snapshot-10.json") ∷ []
unfolding list_snapshots prune sort insert found snapshot_seq strip_prefix read_digits remove_all
    remove take
two_newest = refl

length-prune_example : length (list_snapshots (prune directory 2)) ≤ 2
length-prune_example = length-prune directory 2 (omega arith)

-- The text of the one state that the test writes.
abbrev one_text : Json ℤ
one_text = record { dumps = λ d. "desk"; loads = λ s. ok (payload_of desk_state) }

abbrev older : Dict String
older = ("snapshot-0.json", "none") ∷ []

older_number : snapshot_seq "snapshot-0.json" ≡ some 0
unfolding snapshot_seq strip_prefix read_digits
older_number = refl

older-IsCurrent : All (IsCurrent desk_state.last_seq) older
older-IsCurrent = ((λ other m e. ground (arith, older_number)), tt)

load_latest_state-write_snapshot_example :
    load_latest_state one_text (write_snapshot one_text older desk_state 1) ≡ ok (some desk_state)
load_latest_state-write_snapshot_example =
    load_latest_state-write_snapshot one_text older desk_state 1 refl older-IsCurrent
