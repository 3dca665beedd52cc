-- ===== src/Config/Environment.antt =====
-- The variables of the environment as hobo/config.py reads them.
use Prim.Native.Char.{code}
use Prim.Native.Nat.{◌+◌}
use hobo.Prelude.{ℕ, String, Bool, true, false, none, some, ◌==◌, leb, if◌then◌else◌, ◌&&◌, ◌||◌}
use hobo.Prelude.Dict
use hobo.Prelude.Dict.{Dict}
use hobo.Core.Ingestor.{truthy}
use hobo.Config.Paths.{PosixPath, path_of}

-- `environ.get(k)`, and `environ.get(k, "")`.
abbrev pub Environ : Type 0
Environ = Dict String

abbrev pub variable : Environ → String → String
variable environ k = elim (Dict.get environ k) [ none ↦ "" | some v ↦ v ]

-- `environ.get(k) or default`
abbrev pub or_else : String → PosixPath → PosixPath
or_else s default = if truthy s then path_of s else default

-- The texts whose `strip().lower()` is `word`, which is in lower case.
abbrev is_space : ℕ → Bool
is_space c =
    c == 32
    || (leb 9 c && leb c 13)
    || (leb 28 c && leb c 31)
    || c == 133
    || c == 160
    || c == 5760
    || (leb 8192 c && leb c 8202)
    || c == 8232
    || c == 8233
    || c == 8239
    || c == 8287
    || c == 12288

abbrev lower : ℕ → ℕ
lower c = if leb 65 c && leb c 90 then c + 32 else c

unfoldable pub only_spaces : String → Bool
only_spaces String.[] = true
only_spaces (String.◌∷◌ c s) = if is_space (code c) then only_spaces s else false

unfoldable pub reads_as : String → String → Bool
unfolding only_spaces
reads_as s String.[] = only_spaces s
reads_as String.[] (String.◌∷◌ d word) = false
reads_as (String.◌∷◌ c s) (String.◌∷◌ d word) =
    if lower (code c) == code d then reads_as s word else false

unfoldable pub lstrip : String → String
lstrip String.[] = ""
lstrip (String.◌∷◌ c s) = if is_space (code c) then lstrip s else String.◌∷◌ c s

unfoldable pub says_yes : String → Bool
says_yes s =
    let word = lstrip s in
    reads_as word "1" || reads_as word "true" || reads_as word "yes" || reads_as word "on"
