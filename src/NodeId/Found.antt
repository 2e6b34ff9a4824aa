-- ===== src/NodeId/Found.antt =====
-- The ID is the one in the first path that has one.
use Prim.Native.Char.{Char, code}
use Prim.Native.String.{[], ◌∷◌}
use text.Mathlib.TextLemmas.{nil-append, cons-append}
use interlock_old.Prelude.{
  ℕ, ◌≡◌, ◌≢◌, refl, ◌⊎◌, inl, inr, String, ◌<>◌, true, false, List, [], ◌∷◌, ◌++◌, All, none, some,
  ◌==◌, eq_iff, eqb, Bool-cases,
}
use interlock_old.Go.Outcome.{Outcome, ok}
use interlock_old.Go.Text.{split, extend_first, trim_space}
use interlock_old.NodeId.{third, id_in, first_id, get_container_id}

-- The text has no character of this code.
abbrev pub Lacks : ℕ → String → Type 0
Lacks sep [] = Unit
Lacks sep (c ∷ s) = (eqb (code c) sep ≡ false) × Lacks sep s

split-Lacks : (sep : ℕ) (s : String) → Lacks sep s → split sep s ≡ s ∷ []
unfolding split extend_first
split-Lacks sep [] h = refl
split-Lacks sep (c ∷ s) (other, h) = rw (split, other, split-Lacks sep s h) refl

split-append :
    (sep : ℕ) (s : String) (c : Char) (t : String)
    → Lacks sep s
    → eqb (code c) sep ≡ true
    → split sep (s <> (c ∷ t)) ≡ s ∷ split sep t
unfolding split extend_first
split-append sep [] c t h same = rw (nil-append (c ∷ t)) (rw (split, same) refl)
split-append sep (d ∷ s) c t (other, h) same =
    rw (cons-append d s (c ∷ t)) (rw (split, other, split-append sep s c t h same) refl)

split-colon : (s t : String) → Lacks b':' s → split b':' (s <> (":" <> t)) ≡ s ∷ split b':' t
split-colon s t h = rw (cons-append ":" "" t, nil-append t) (split-append b':' s ":" t h refl)

split-slash : (s t : String) → Lacks b'/' s → split b'/' (s <> ("/" <> t)) ≡ s ∷ split b'/' t
split-slash s t h = rw (cons-append "/" "" t, nil-append t) (split-append b'/' s "/" t h refl)

-- A line of the file for a container of Docker: the hierarchy, the controllers, and the path.
abbrev pub docker_line : String → String → String → String
docker_line hierarchy controllers id =
    hierarchy <> (":" <> (controllers <> (":" <> ("" <> ("/" <> ("docker" <> ("/" <> id)))))))

-- The parts of the path and of the line hold no separator.
pub record IsPlain (hierarchy controllers id : String) : Type 0 where
  pub hierarchy_plain : Lacks b':' hierarchy
  pub controllers_plain : Lacks b':' controllers
  pub id_plain : Lacks b'/' id
  pub path_plain : Lacks b':' ("" <> ("/" <> ("docker" <> ("/" <> id))))

id_in-docker_line :
    (hierarchy controllers id : String)
    → IsPlain hierarchy controllers id
    → id_in (docker_line hierarchy controllers id) ≡ some id
unfolding id_in third
id_in-docker_line hierarchy controllers id plain =
    let path = "" <> ("/" <> ("docker" <> ("/" <> id))) in
    rw
      (
        id_in,
        split-colon hierarchy (controllers <> (":" <> path)) plain.hierarchy_plain,
        split-colon controllers path plain.controllers_plain,
        split-Lacks b':' path plain.path_plain,
        split-slash "" ("docker" <> ("/" <> id)) tt,
        split-slash "docker" id (refl, (refl, (refl, (refl, (refl, (refl, tt)))))),
        split-Lacks b'/' id plain.id_plain,
      )
      refl

-- A line without an ID.
abbrev pub HasNoId : String → Type 0
HasNoId line = (id_in line ≡ none) ⊎ (id_in line ≡ some "")

first_id-skips :
    (before lines : List String) → All HasNoId before → first_id (before ++ lines) ≡ first_id lines
unfolding first_id
first_id-skips [] lines h = refl
first_id-skips (line ∷ before) lines (inl missing, h) =
    rw (missing, first_id) (first_id-skips before lines h)
first_id-skips (line ∷ before) lines (inr empty, h) =
    rw (empty, first_id) (first_id-skips before lines h)

-- In a container of Docker, the ID found is the one in the first line of /proc/self/cgroup that has an ID,
-- without the space around it.
pub get_container_id-docker_line :
    (before after : List String) (hierarchy controllers id : String) (read_again : Outcome String)
    → All HasNoId before
    → IsPlain hierarchy controllers id
    → id ≢ ""
    → get_container_id (ok (before ++ docker_line hierarchy controllers id ∷ after)) read_again
      ≡ ok (trim_space id)
unfolding get_container_id first_id
get_container_id-docker_line before after hierarchy controllers id read_again h plain full =
    let lines : List String = docker_line hierarchy controllers id ∷ after in
    let not_empty : (id == "") ≡ false = elim (Bool-cases (id == "")) [
      | inl empty ↦ absurd (full ((eq_iff id "").0 empty))
      | inr other ↦ other
    ] in
    rw (get_container_id, first_id-skips before lines h)
      (rw (first_id, id_in-docker_line hierarchy controllers id plain, not_empty) refl)
