-- ===== src/Go/Template.antt =====
-- What the templates use of text/template: text, values, if, range, and a nil pointer.
pub mod Scan
use interlock_old.Prelude.{String, ◌<>◌, Bool, true, false, List, [], ◌∷◌, Option, none, some}
use interlock_old.Go.Outcome.{Outcome, ok, err, ◌>>=◌}

-- A piece of the output: text of the template, cut after each line, or the value of an action with the
-- text that stands before it in its line.
pub data Piece : Type 0 where
  lit : String → Piece
  val : String → String → Piece

-- The output of an execution, in the order in which it is written.
infixr 5 ◌⊕◌
pub data Output : Type 0 where
  pieces : List Piece → Output
  ◌⊕◌ : Output → Output → Output

unfoldable pub text_of_pieces : List Piece → String
text_of_pieces [] = ""
text_of_pieces (lit s ∷ ps) = s <> text_of_pieces ps
text_of_pieces (val s v ∷ ps) = s <> (v <> text_of_pieces ps)

unfoldable pub text_of : Output → String
unfolding text_of_pieces
text_of (pieces ps) = text_of_pieces ps
text_of (o ⊕ p) = text_of o <> text_of p

unfoldable pub when : Bool → Output → Output
when true o = o
when false o = pieces []

unfoldable pub each {ℓ} : {A : Type ℓ} → (A → Output) → List A → Output
each body [] = pieces []
each body (x ∷ xs) = body x ⊕ each body xs

-- A field of a nil pointer ends the execution with an error.
unfoldable pub pointer : {A : Type 0} → Option A → Outcome A
pointer none = err "nil pointer evaluating"
pointer (some a) = ok a

-- A range whose body reads a field of a pointer.
unfoldable pub each_at :
    {A B : Type 0} → (A → Option B) → (A → B → Output) → List A → Outcome Output
unfolding pointer
each_at at body [] = ok (pieces [])
each_at at body (x ∷ xs) = do b ← pointer (at x); rest ← each_at at body xs; ok (body x b ⊕ rest)
