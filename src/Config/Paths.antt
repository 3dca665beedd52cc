-- ===== src/Config/Paths.antt =====
-- `pathlib.PurePosixPath` as hobo/config.py uses it: a root, which is empty for a relative path, and
-- the parts.
use Prim.Native.Char.{code}
use Prim.Native.String.{◌++◌ as ◌^◌}
use hobo.Prelude.{String, Bool, List, [], ◌∷◌, ◌++◌, ◌==◌, str_eq, if◌then◌else◌, ◌||◌, not}

pub record PosixPath : Type 0 where
  pub root : String
  pub parts : List String

abbrev is_slash : String → Bool
is_slash String.[] = Bool.false
is_slash (String.◌∷◌ c s) = code c == b'/'

abbrev tail : String → String
tail String.[] = ""
tail (String.◌∷◌ c s) = s

-- Two slashes in front are kept, more or fewer are one.
unfoldable pub root_of : String → String
root_of s =
    if is_slash s
    then (if is_slash (tail s) then (if is_slash (tail (tail s)) then "/" else "//") else "/")
    else ""

-- The text between the slashes.
unfoldable pub split : String → List String
split String.[] = "" ∷ []
split (String.◌∷◌ c s) =
    if code c == b'/'
    then "" ∷ split s
    else elim (split s) [ [] ↦ String.◌∷◌ c "" ∷ [] | p ∷ ps ↦ String.◌∷◌ c p ∷ ps ]

unfoldable pub named_parts : List String → List String
named_parts [] = []
named_parts (p ∷ ps) = if str_eq p "" || str_eq p "." then named_parts ps else p ∷ named_parts ps

-- `Path(s)`
unfoldable pub path_of : String → PosixPath
path_of s = record { root = root_of s; parts = named_parts (split s) }

abbrev pub is_absolute : PosixPath → Bool
is_absolute p = not (str_eq p.root "")

-- `base / p`
unfoldable pub join : PosixPath → PosixPath → PosixPath
join base p =
    if is_absolute p then p else record { root = base.root; parts = base.parts ++ p.parts }

unfoldable pub slashed : List String → String
slashed [] = ""
slashed (p ∷ []) = p
slashed (p ∷ (q ∷ ps)) = p ^ ("/" ^ slashed (q ∷ ps))

-- `str(p)`
unfoldable pub path_text : PosixPath → String
path_text p = if str_eq (p.root ^ slashed p.parts) "" then "." else p.root ^ slashed p.parts
