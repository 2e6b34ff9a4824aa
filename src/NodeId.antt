-- ===== src/NodeId.antt =====
-- utils/node_id.go: the ID of the container that the program runs in.
pub mod Found
use Prim.Native.Char.{Char, code}
use Prim.Native.String.{[], ◌∷◌}
use interlock_old.Prelude.{
  ℕ, String, ◌<>◌, Bool, true, false, ◌||◌, ◌&&◌, List, [], ◌∷◌, Option, none, some, ◌==◌, eqb, leb,
  if◌then◌else◌,
}
use interlock_old.Go.Outcome.{Outcome, ok, err, panic}
use interlock_old.Go.Text.{split, trim_space}

-- The third part of a list of parts, where there are three.
unfoldable pub third : List String → Option String
third (a ∷ b ∷ c ∷ rest) = some c
third parts = none

-- The ID that a line of the file holds, which may be empty.
unfoldable pub id_in : String → Option String
unfolding third split
id_in line = elim (third (split b':' line)) [ none ↦ none | some path ↦ third (split b'/' path) ]

-- The loop over the lines of /proc/self/cgroup.
unfoldable pub first_id : List String → Option String
unfolding id_in trim_space
first_id [] = none
first_id (line ∷ lines) =
    let later = first_id lines in
    elim (id_in line) [ none ↦ later | some id ↦ if id == "" then later else some (trim_space id) ]

-- `open_lines` is the file as bufio.Scanner reads it, `read_again` its content as ioutil.ReadFile does.
unfoldable pub get_container_id : Outcome (List String) → Outcome String → Outcome String
unfolding first_id
get_container_id (err e) read_again =
    err ("unable to detect cgroup.  are you sure you are in a container? error: " <> e)
get_container_id panic read_again = panic
get_container_id (ok lines) read_again = elim (first_id lines) [
  | some id ↦ ok id
  | none ↦ elim read_again [
    | ok content ↦ err ("unable to get container id: " <> content)
    | err e ↦ err e
    | panic ↦ panic
  ]
]
