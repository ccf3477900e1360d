-- ===== src/Files/Paths.antt =====
-- file_store.go: escapeKey, and the paths that filepath.Join makes. A path is the list of its components,
-- the innermost first; the root directory is absolute, so that `..` at the top stays there.
pub mod Escape
pub mod Plain
use Prim.Native.Char.{Char, code}
use Prim.Native.String
use Prim.Native.String.{◌++◌}
use go_build_cache.Prelude.{
  String, Bool, ◌||◌, Option, none, some, List, [], ◌∷◌, ◌==◌, str_eq, if◌then◌else◌,
}

abbrev pub FilePath : Type 0
FilePath = List String

-- What stands behind the `%` for a character that is escaped.
unfoldable pub escape_pair : Char → Option (Char × Char)
escape_pair c =
    if code c == b'%'
    then some ("2", "5")
    else if code c == b'/'
    then some ("2", "F")
    else if code c == b'\\'
    then some ("5", "C")
    else if code c == b' '
    then some ("2", "0")
    else none

abbrev pub escaped_onto : Char → String → Option (Char × Char) → String
escaped_onto c rest none = String.◌∷◌ c rest
escaped_onto c rest (some (a, b)) = String.◌∷◌ "%" (String.◌∷◌ a (String.◌∷◌ b rest))

-- escapeKey
unfoldable pub escape_key : String → String
unfolding escape_pair
escape_key String.[] = ""
escape_key (String.◌∷◌ c s) = escaped_onto c (escape_key s) (escape_pair c)

abbrev pub onto_first : Char → List String → List String
onto_first c [] = String.◌∷◌ c "" ∷ []
onto_first c (x ∷ xs) = String.◌∷◌ c x ∷ xs

-- The components of a text, as filepath.Join splits it.
unfoldable pub split_slash : String → List String
split_slash String.[] = "" ∷ []
split_slash (String.◌∷◌ c s) =
    let rest = split_slash s in if code c == b'/' then "" ∷ rest else onto_first c rest

abbrev pub parent : FilePath → FilePath
parent [] = []
parent (x ∷ p) = p

-- filepath.Clean, component by component
unfoldable pub enter : FilePath → String → FilePath
enter p x = if str_eq x "" || str_eq x "." then p else if str_eq x ".." then parent p else x ∷ p

unfoldable pub enter_all : FilePath → List String → FilePath
unfolding enter
enter_all p [] = p
enter_all p (x ∷ xs) = enter_all (enter p x) xs

-- filepath.Join
unfoldable pub join : FilePath → List String → FilePath
unfolding enter_all split_slash
join p [] = p
join p (part ∷ parts) = join (enter_all p (split_slash part)) parts

abbrev pub json_suffix : String
json_suffix = ".json"

unfoldable pub entry_path : FilePath → String → String → FilePath
unfolding join escape_key
entry_path root namespace key =
    join root ("entries" ∷ escape_key namespace ∷ (escape_key key ++ json_suffix) ∷ [])
