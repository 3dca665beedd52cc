-- ===== src/Log/Snapshot/Newest.antt =====
-- The snapshot that is loaded after one is written (hobo/log/snapshot.py).
use Prim.Native.Nat.{◌-◌}
use Prim.Native.String.{◌++◌ as ◌^◌}
use hobo.Prelude.{
  ℕ, zero, suc, String, false, some, List, [], ◌∷◌, ◌++◌, length, length-append, take, All, ◌≡◌,
  ◌≢◌, refl, sym, ap, ◌∙◌, ◌<◌, ◌≤◌, arith, str_eq, eq_refl, eq_iff, Bool-cases, Option-cases, inl,
  inr, ok, ◌>>=◌,
}
use hobo.Prelude.Dict
use hobo.Prelude.Dict.{Dict}
use hobo.Prelude.Data.{find, item}
use hobo.Float.{Num}
use hobo.Risk.State.{State}
use hobo.Risk.Saved.Restored.{state_from_dict-state_to_dict}
use hobo.Log.Snapshot.{
  Json, Reads, snapshot_filename, snapshot_seq, entry_le, insert, sort, found, list_snapshots,
  remove, write_file, replace_file, remove_all, prune, last, payload_of, write_snapshot, payload_at,
  load_latest_snapshot_payload, state_of_payload, load_latest_state,
}
use hobo.Log.Snapshot.Names.{snapshot_seq-snapshot_filename}

-- A file that is no snapshot, or one of a smaller number.
abbrev pub IsOlder : ℕ → String × String → Type 0
IsOlder seq file = (m : ℕ) → snapshot_seq file.0 ≡ some m → m < seq

-- A snapshot with a smaller number.
abbrev Below : ℕ → ℕ × String → Type 0
Below seq e = (snapshot_seq e.1 ≡ some e.0) × (e.0 < seq)

module _ (seq : ℕ) where
  found-Below : (d : Dict String) → All (IsOlder seq) d → All (Below seq) (found d)
  unfolding found
  found-Below [] h = tt
  found-Below ((name, content) ∷ d) h = elim (Option-cases (snapshot_seq name)) [
    | inl e ↦ rw (e, found) (found-Below d h.1)
    | inr (m, e) ↦ rw (e, found) ((e, h.0 m e), found-Below d h.1)
  ]

  insert-Below :
      (x : ℕ × String) (xs : List (ℕ × String))
      → Below seq x
      → All (Below seq) xs
      → All (Below seq) (insert x xs)
  unfolding insert
  insert-Below x [] hx h = (hx, tt)
  insert-Below x (y ∷ ys) hx h = elim (Bool-cases (entry_le x y)) [
    | inl e ↦ rw e (hx, h)
    | inr e ↦ rw e (h.0, insert-Below x ys hx h.1)
  ]

  sort-Below : (xs : List (ℕ × String)) → All (Below seq) xs → All (Below seq) (sort xs)
  unfolding sort
  sort-Below [] h = tt
  sort-Below (x ∷ xs) h = insert-Below x (sort xs) h.0 (sort-Below xs h.1)

  take-Below : (m : ℕ) (xs : List (ℕ × String)) → All (Below seq) xs → All (Below seq) (take m xs)
  unfolding take
  take-Below zero xs h = tt
  take-Below (suc m) [] h = tt
  take-Below (suc m) (x ∷ xs) h = (h.0, take-Below m xs h.1)

  entry_le_no : (x y : ℕ × String) → x.0 ≡ seq → y.0 < seq → entry_le x y ≡ false
  entry_le_no x y e h = ground arith

  -- The newest entry goes to the end.
  insert_newest :
      (x : ℕ × String) (xs : List (ℕ × String))
      → x.0 ≡ seq
      → All (Below seq) xs
      → insert x xs ≡ xs ++ x ∷ []
  unfolding insert
  insert_newest x [] e h = refl
  insert_newest x (y ∷ ys) e h =
      rw (entry_le_no x y e h.0.1) (ap (λ l. y ∷ l) (insert_newest x ys e h.1))

take_before :
    (m : ℕ) (xs : List (ℕ × String)) (x : ℕ × String)
    → m ≤ length xs
    → take m (xs ++ x ∷ []) ≡ take m xs
unfolding take
take_before zero xs x h = refl
take_before (suc m) [] x h = absurd (omega arith)
take_before (suc m) (y ∷ ys) x h = ap (λ l. y ∷ l) (take_before m ys x (omega arith))

last-append : (xs : List (ℕ × String)) (x : ℕ × String) → last (xs ++ x ∷ []) ≡ some x
last-append [] x = refl
last-append (y ∷ []) x = refl
last-append (y ∷ (z ∷ zs)) x = last-append (z ∷ zs) x

remove-All {ℓ} :
    (P : String × String → Type ℓ) (d : Dict String) (name : String)
    → All P d
    → All P (remove d name)
unfolding remove
remove-All P [] name h = tt
remove-All P ((j, content) ∷ d) name h = elim (Bool-cases (str_eq j name)) [
  | inl e ↦ rw e (remove-All P d name h.1)
  | inr e ↦ rw e (h.0, remove-All P d name h.1)
]

remove_all-All {ℓ} :
    (P : String × String → Type ℓ) (es : List (ℕ × String)) (d : Dict String)
    → All P d
    → All P (remove_all es d)
unfolding remove_all
remove_all-All P [] d h = h
remove_all-All P (e ∷ es) d h = remove_all-All P es (remove d e.1) (remove-All P d e.1 h)

remove_head :
    (d : Dict String) (name text : String) → remove ((name, text) ∷ d) name ≡ remove d name
unfolding remove
remove_head d name text = rw (eq_refl name) refl

-- A file that none of the entries names is kept.
remove_all-keeps :
    (seq : ℕ) (es : List (ℕ × String)) (content : String) (d : Dict String)
    → All (Below seq) es
    → remove_all es ((snapshot_filename seq, content) ∷ d)
      ≡ (snapshot_filename seq, content) ∷ remove_all es d
unfolding remove_all remove
remove_all-keeps seq [] content d h = refl
remove_all-keeps seq (e ∷ es) content d h = elim (Bool-cases (str_eq (snapshot_filename seq) e.1)) [
  | inr q ↦ rw q (remove_all-keeps seq es content (remove d e.1) h.1)
  | inl q ↦
      let same = (eq_iff (snapshot_filename seq) e.1).0 q in
      let number = sym (snapshot_seq-snapshot_filename seq) ∙ ap snapshot_seq same ∙ h.0.0 in
      absurd (ground (arith, h.0.1))
]

abbrev pub IsCurrent : ℕ → String × String → Type 0
IsCurrent seq file = file.0 ≢ snapshot_filename seq → IsOlder seq file

rest_IsOlder :
    (seq : ℕ) (d : Dict String)
    → All (IsCurrent seq) d
    → All (IsOlder seq) (remove d (snapshot_filename seq))
unfolding remove
rest_IsOlder seq [] h = tt
rest_IsOlder seq ((j, content) ∷ d) h = elim (Bool-cases (str_eq j (snapshot_filename seq))) [
  | inl q ↦ rw q (rest_IsOlder seq d h.1)
  | inr q ↦ rw q (h.0 (λ e. cc ((eq_iff j (snapshot_filename seq)).1 e)), rest_IsOlder seq d h.1)
]

module _ (seq : ℕ) (content : String) (rest : Dict String) (older : All (IsOlder seq) rest) where
  list_with_newest :
      list_snapshots ((snapshot_filename seq, content) ∷ rest)
      ≡ sort (found rest) ++ (seq, snapshot_filename seq) ∷ []
  unfolding list_snapshots found sort
  list_with_newest =
      rw (snapshot_seq-snapshot_filename seq, found)
        (insert_newest seq (seq, snapshot_filename seq) (sort (found rest)) refl
          (sort-Below seq (found rest) (found-Below seq rest older)))

  prune_with_newest :
      (keep_last : ℕ)
      → (kept : Dict String) × (prune ((snapshot_filename seq, content) ∷ rest) keep_last
          ≡ (snapshot_filename seq, content) ∷ kept)
        × All (IsOlder seq) kept
  unfolding prune
  prune_with_newest zero = (rest, refl, older)
  prune_with_newest (suc k) =
      let newest : ℕ × String = (seq, snapshot_filename seq) in
      let olds = sort (found rest) in
      let m = length (olds ++ newest ∷ []) - suc k in
      let few : m ≤ length olds = omega (arith, length-append olds (newest ∷ [])) in
      let below =
        take-Below seq m olds (sort-Below seq (found rest) (found-Below seq rest older)) in
      (
        remove_all (take m olds) rest,
        rw list_with_newest (
            ap (λ es. remove_all es ((snapshot_filename seq, content) ∷ rest))
              (take_before m olds newest few)
            ∙ remove_all-keeps seq (take m olds) content rest below),
        remove_all-All (IsOlder seq) (take m olds) rest older,
      )

module _ {F : Type 0} ⦃n : Num F⦄ (json : Json F) where
  payload_of_newest :
      (state : State F) (rest : Dict String)
      → Reads json (payload_of state)
      → All (IsOlder state.last_seq) rest
      → load_latest_snapshot_payload json
          ((snapshot_filename state.last_seq, json.dumps (payload_of state)) ∷ rest)
        ≡ ok (some (payload_of state))
  unfolding load_latest_snapshot_payload Dict.get
  payload_of_newest state rest reads older =
      let final = snapshot_filename state.last_seq in
      let text = json.dumps (payload_of state) in
      ap (payload_at json ((final, text) ∷ rest)) (
        ap last (list_with_newest state.last_seq text rest older)
        ∙ last-append (sort (found rest)) (state.last_seq, final))
      ∙ rw (eq_refl final) (rw reads refl)

  state_of_newest : (state : State F) → state_of_payload (some (payload_of state)) ≡ ok (some state)
  unfolding payload_of item find
  state_of_newest state = rw (state_from_dict-state_to_dict state) refl

  replaced :
      (directory : Dict String) (tmp final text : String)
      → replace_file (write_file directory tmp text) tmp final
        ≡ write_file (remove (remove directory tmp) tmp) final text
  unfolding Dict.get
  replaced directory tmp final text =
      rw (eq_refl tmp, replace_file)
        (ap (λ d. write_file d final text) (remove_head (remove directory tmp) tmp text))

  -- A snapshot is found again: where the other snapshots in the directory have smaller numbers,
  -- and the JSON of the state is read as it was written, `load_latest_state` returns the state that `write_snapshot` was given, whatever is pruned.
  pub load_latest_state-write_snapshot :
      (directory : Dict String) (state : State F) (keep_last : ℕ)
      → Reads json (payload_of state)
      → All (IsCurrent state.last_seq) directory
      → load_latest_state json (write_snapshot json directory state keep_last) ≡ ok (some state)
  unfolding write_snapshot load_latest_state
  load_latest_state-write_snapshot directory state keep_last reads h =
      let final = snapshot_filename state.last_seq in
      let tmp = final ^ ".tmp" in
      let text = json.dumps (payload_of state) in
      let others = remove (remove directory tmp) tmp in
      let current = remove-All (IsCurrent state.last_seq) _ tmp (remove-All _ directory tmp h) in
      let (kept, pruned, older) =
        prune_with_newest state.last_seq text (remove others final)
          (rest_IsOlder state.last_seq others current) keep_last in
      ap (λ d. load_latest_state json (prune d keep_last)) (replaced directory tmp final text)
      ∙ ap (load_latest_state json) pruned
      ∙ ap (λ p. p >>= state_of_payload) (payload_of_newest state kept reads older)
      ∙ state_of_newest state
