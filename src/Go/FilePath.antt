-- ===== src/Go/FilePath.antt =====
-- The functions of path and path/filepath, on Unix.
use Prim.Native.Char.{code}
use Prim.Native.String.{[], ◌∷◌}
use mathlib.Core.List.{[], ◌∷◌, reverse}
use text.Mathlib.TextLemmas.{append-eq-nil_iff}
use interlock_old.Prelude.{
  String, ◌<>◌, Bool, true, false, ◌&&◌, ◌||◌, List, ◌==◌, eqb, ◌≢◌, Bool-cases, inl, inr, eq_iff,
  if◌then◌else◌,
}
use interlock_old.Go.Text.{split}

join_parts : List String → String
join_parts [] = ""
join_parts (part ∷ []) = part
join_parts (part ∷ other ∷ parts) = part <> ("/" <> join_parts (other ∷ parts))

is_rooted : String → Bool
is_rooted [] = false
is_rooted (c ∷ s) = eqb (code c) b'/'

-- ".." takes back the part above it, and goes nowhere from the root
parent : Bool → List String → List String
parent true [] = []
parent false [] = ".." ∷ []
parent rooted (top ∷ stack) = if top == ".." then ".." ∷ top ∷ stack else stack

resolve : Bool → List String → List String → List String
resolve rooted stack [] = reverse stack
resolve rooted stack (part ∷ parts) =
    resolve rooted
      (if part == "" || part == "."
        then stack
        else if part == ".."
        then parent rooted stack
        else part ∷ stack)
      parts

-- filepath.Clean
unfoldable pub clean : String → String
unfolding join_parts is_rooted parent resolve
clean path =
    let out = join_parts (resolve (is_rooted path) [] (split b'/' path)) in
    if is_rooted path then "/" <> out else if out == "" then "." else out

cleaned-there :
    (rooted : Bool) (out : String)
    → (if rooted then "/" <> out else if out == "" then "." else out) ≢ ""
cleaned-there true out e = cc ((append-eq-nil_iff.0 e).0)
cleaned-there false out e = elim (Bool-cases (out == "")) [
  | inl empty ↦ cc (rw empty at e)
  | inr full ↦ cc (full, (eq_iff out "").1 (rw full at e))
]

-- The result is never empty.
pub clean-there : (path : String) → clean path ≢ ""
unfolding clean
clean-there path = cleaned-there (is_rooted path) _

-- filepath.Join of two elements
unfoldable pub join : String → String → String
unfolding clean
join dir file =
    if dir == "" then (if file == "" then "" else clean file) else clean (dir <> ("/" <> file))

-- path.Split: the text up to and with the last slash, and the rest
unfoldable pub split_file : String → String × String
split_file [] = ("", "")
split_file (c ∷ s) =
    let (dir, file) = split_file s in
    if dir == ""
    then (if eqb (code c) b'/' then ("/", file) else ("", c ∷ file))
    else (c ∷ dir, file)

-- path.Dir
unfoldable pub dir : String → String
unfolding split_file clean
dir path = clean ((split_file path).0)

strip_slashes : String → String
strip_slashes [] = ""
strip_slashes (c ∷ s) =
    let rest = strip_slashes s in if rest == "" && eqb (code c) b'/' then "" else c ∷ rest

-- path.Base
unfoldable pub base : String → String
unfolding split_file strip_slashes
base path =
    let file = (split_file (strip_slashes path)).1 in
    if path == "" then "." else if file == "" then "/" else file
