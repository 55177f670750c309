-- ===== src/FileUpload/Sanitizer.antt =====
-- services/file-upload/internal/security/sanitizer.go. A text is its characters' codes; for a text
-- that is valid UTF-8 the functions of `strings` give the same on codes as on bytes. Letters are
-- lowered on ASCII: the names that keys are searched for have no other letters.
mod Deletion
mod Filename
mod Split
mod Collapse
mod Path
mod Tests
use Prim.Native.Char.{code}
use Prim.Native.String.{String}
use mathlib.Core.List.{reverse}
use microservices_base.Prelude.{
  ℕ, zero, suc, ◌+◌, ◌-◌, Bool, true, false, ◌&&◌, ◌||◌, not, Option, none, some, List, [], ◌∷◌,
  ◌++◌, map, length, leb, if◌then◌else◌,
}
use microservices_base.Prelude.Eq.{◌==◌, comparable_nat, comparable_list}

-- The code points of a text. `String` has its own `[]` and `∷`.
abbrev pub codes : String → List ℕ
codes String.[] = []
codes (String.◌∷◌ c s) = code c ∷ codes s

abbrev pub slash : ℕ
slash = 47

unfoldable pub has_prefix : List ℕ → List ℕ → Bool
has_prefix [] s = true
has_prefix (c ∷ p) [] = false
has_prefix (c ∷ p) (d ∷ s) = if c == d then has_prefix p s else false

-- `strings.Contains(s, p)`.
unfoldable pub contains : List ℕ → List ℕ → Bool
contains p [] = has_prefix p []
contains p (c ∷ s) = if has_prefix p (c ∷ s) then true else contains p s

-- `strings.ReplaceAll(s, p, new)` for a pattern that is not empty: `skip` characters belong to an
-- occurrence that has been replaced.
unfoldable pub replace_from : ℕ → List ℕ → List ℕ → List ℕ → List ℕ
replace_from skip p new [] = []
replace_from (suc skip) p new (c ∷ s) = replace_from skip p new s
replace_from zero p new (c ∷ s) =
    let found = replace_from (length p - 1) p new s in
    let kept = replace_from zero p new s in if has_prefix p (c ∷ s) then new ++ found else c ∷ kept

unfoldable pub replace_all : List ℕ → List ℕ → List ℕ → List ℕ
replace_all s p new = replace_from zero p new s

abbrev pub path_traversal_chars : List (List ℕ)
path_traversal_chars =
    codes ".." ∷ codes "/" ∷ codes "\\" ∷ codes "%2e" ∷ codes "%2f" ∷ codes "%5c" ∷ []

-- filepath.Base on a system whose separator is the slash.
unfoldable pub skip_slashes : List ℕ → List ℕ
skip_slashes [] = []
skip_slashes (c ∷ s) = if c == slash then skip_slashes s else c ∷ s

unfoldable pub before_slash : List ℕ → List ℕ
before_slash [] = []
before_slash (c ∷ s) = if c == slash then [] else c ∷ before_slash s

unfoldable pub base : List ℕ → List ℕ
base [] = codes "."
base (c ∷ s) = elim (reverse (before_slash (skip_slashes (reverse (c ∷ s))))) [
  | [] ↦ codes "/"
  | d ∷ name ↦ d ∷ name
]

unfoldable pub remove_each : List (List ℕ) → List ℕ → List ℕ
remove_each [] filename = filename
remove_each (p ∷ ps) filename = remove_each ps (replace_all filename p [])

abbrev pub is_printed : ℕ → Bool
is_printed r = leb 32 r && not (r == 127)

unfoldable pub printed : List ℕ → List ℕ
printed [] = []
printed (r ∷ s) = if is_printed r then r ∷ printed s else printed s

abbrev pub or_unnamed : List ℕ → List ℕ
or_unnamed result = if result == [] || result == codes "." then codes "unnamed" else result

unfoldable pub sanitize_filename : List ℕ → List ℕ
sanitize_filename filename =
    or_unnamed
      (printed (replace_all (remove_each path_traversal_chars (base filename)) (0 ∷ []) []))

unfoldable pub contains_any : List (List ℕ) → List ℕ → Bool
contains_any [] s = false
contains_any (p ∷ ps) s = if contains p s then true else contains_any ps s

unfoldable pub all_printed : List ℕ → Bool
all_printed [] = true
all_printed (r ∷ s) = if is_printed r then all_printed s else false

unfoldable pub validate_filename : List ℕ → Bool
validate_filename filename =
    if filename == []
    then false
    else if contains_any path_traversal_chars filename
    then false
    else if contains (0 ∷ []) filename
    then false
    else all_printed filename

abbrev pub sensitive_keys : List (List ℕ)
sensitive_keys =
    codes "password"
    ∷ codes "passwd"
    ∷ codes "pwd"
    ∷ codes "secret"
    ∷ codes "token"
    ∷ codes "api_key"
    ∷ codes "apikey"
    ∷ codes "api-key"
    ∷ codes "authorization"
    ∷ codes "auth"
    ∷ codes "bearer"
    ∷ codes "credential"
    ∷ codes "credentials"
    ∷ []

unfoldable pub to_lower : ℕ → ℕ
to_lower c = if leb 65 c && leb c 90 then c + 32 else c

-- RedactMap; the map is a list of keys and values.
unfoldable pub redact_map : List (List ℕ × List ℕ) → List (List ℕ × List ℕ)
redact_map [] = []
redact_map ((k, v) ∷ data') =
    (k, if contains_any sensitive_keys (map to_lower k) then codes "[REDACTED]" else v)
    ∷ redact_map data'

-- `strings.Split(path, "/")`, which has a part at least.
abbrev pub onto_first : ℕ → List (List ℕ) → List (List ℕ)
onto_first c [] = (c ∷ []) ∷ []
onto_first c (part ∷ parts) = (c ∷ part) ∷ parts

unfoldable pub split : List ℕ → List (List ℕ)
split [] = [] ∷ []
split (c ∷ s) = if c == slash then [] ∷ split s else onto_first c (split s)

-- `strings.Join(parts, "/")`.
unfoldable pub join : List (List ℕ) → List ℕ
join [] = []
join (part ∷ []) = part
join (part ∷ next ∷ parts) = part ++ slash ∷ join (next ∷ parts)

-- The first part is the path up to the first slash.
unfoldable pub validate_tenant_access : List ℕ → List ℕ → Bool
validate_tenant_access path tenant_id =
    if path == [] || tenant_id == [] then false else before_slash path == tenant_id

-- `strings.Trim(path, "/")`.
unfoldable pub trim : List ℕ → List ℕ
trim path = reverse (skip_slashes (reverse (skip_slashes path)))

-- The `for`, on fuel.
unfoldable pub collapse : ℕ → List ℕ → List ℕ
collapse zero path = path
collapse (suc fuel) path =
    let rest = collapse fuel (replace_all path (slash ∷ slash ∷ []) (slash ∷ [])) in
    if contains (slash ∷ slash ∷ []) path then rest else path

abbrev pub is_kept : List ℕ → Bool
is_kept part = not (part == codes "..") && not (part == codes ".") && not (part == [])

unfoldable pub kept_parts : List (List ℕ) → List (List ℕ)
kept_parts [] = []
kept_parts (part ∷ parts) = if is_kept part then part ∷ kept_parts parts else kept_parts parts

unfoldable pub sanitize_path : List ℕ → List ℕ
sanitize_path path =
    let trimmed = trim path in join (kept_parts (split (collapse (length trimmed) trimmed)))
