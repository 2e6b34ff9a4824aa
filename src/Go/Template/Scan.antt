-- ===== src/Go/Template/Scan.antt =====
-- The names in an output: the values that follow certain texts.
use interlock_old.Prelude.{
  ◌≡◌, refl, sym, ◌∙◌, inl, inr, String, Bool, true, false, List, [], ◌∷◌, ◌++◌, All, All-append,
  IsIn, Option, none, some, if◌then◌else◌,
}
use interlock_old.Go.Outcome.{ok, >>=-eq-ok, ok-injective}
use interlock_old.Go.Template.{Piece, lit, val, Output, pieces, ◌⊕◌, when, each, each_at, pointer}

IsIn-left : {A : Type 0} (x : A) (xs ys : List A) → IsIn x xs → IsIn x (xs ++ ys)
IsIn-left x [] ys h = absurd h
IsIn-left x (y ∷ xs) ys (inl same) = inl same
IsIn-left x (y ∷ xs) ys (inr h) = inr (IsIn-left x xs ys h)

IsIn-right : {A : Type 0} (x : A) (xs ys : List A) → IsIn x ys → IsIn x (xs ++ ys)
IsIn-right x [] ys h = h
IsIn-right x (y ∷ xs) ys h = inr (IsIn-right x xs ys h)

pointer-some : {A : Type 0} (o : Option A) (a : A) → pointer o ≡ ok a → o ≡ some a
unfolding pointer
pointer-some none a h = cc h
pointer-some (some b) a h = rw (ok-injective h) refl

some-injective : {A : Type 0} {a b : A} → some a ≡ some b → a ≡ b
some-injective h = cc

abbrev pub to_list : Option String → List String
to_list none = []
to_list (some n) = n ∷ []

-- The names: `name_at` gives the one that a value has after a text, if it has one.
module _ (name_at : String → String → Option String) where
  abbrev pub names_of_pieces : List Piece → List String
  names_of_pieces [] = []
  names_of_pieces (lit s ∷ ps) = names_of_pieces ps
  names_of_pieces (val s v ∷ ps) = to_list (name_at s v) ++ names_of_pieces ps

  abbrev pub names : Output → List String
  names (pieces ps) = names_of_pieces ps
  names (o ⊕ p) = names o ++ names p

  -- Each name of the output has the property.
  pub record AllNames (P : String → Type 0) (o : Output) : Type 0 where
    pub holds : All P (names o)

  module _ {P : String → Type 0} where
    pub AllNames-join : {o p : Output} → AllNames P o → AllNames P p → AllNames P (o ⊕ p)
    AllNames-join {o} {p} h k = record { holds = All-append P (names o) (names p) h.holds k.holds }

    pub AllNames-each {ℓ} :
        {A : Type ℓ} {body : A → Output} (xs : List A)
        → ((x : A) → AllNames P (body x))
        → AllNames P (each body xs)
    unfolding each
    AllNames-each [] h = record { holds = tt }
    AllNames-each (x ∷ xs) h = AllNames-join (h x) (AllNames-each xs h)

    pub AllNames-when : {o : Output} (b : Bool) → AllNames P o → AllNames P (when b o)
    unfolding when
    AllNames-when true h = h
    AllNames-when false h = record { holds = tt }

    pub AllNames-if :
        {o p : Output} (b : Bool) → AllNames P o → AllNames P p → AllNames P (if b then o else p)
    AllNames-if true h k = h
    AllNames-if false h k = k

    pub AllNames-each_at :
        {A B : Type 0} (at : A → Option B) (body : A → B → Output) (xs : List A) (o : Output)
        → each_at at body xs ≡ ok o
        → ((x : A) (b : B) → IsIn x xs → at x ≡ some b → AllNames P (body x b))
        → AllNames P o
    unfolding each_at pointer
    AllNames-each_at at body [] o e h = rw (← ok-injective e) (record { holds = tt })
    AllNames-each_at at body (x ∷ xs) o e h =
        let (b, there, rest) = >>=-eq-ok (pointer (at x)) _ e in
        let (p, later, built) = >>=-eq-ok (each_at at body xs) _ rest in
        rw (← ok-injective built) (
          AllNames-join (h x b (inl refl) (pointer-some (at x) b there))
            (AllNames-each_at at body xs p later (λ y c i. h y c (inr i))))

  pub IsIn-names-left : (n : String) (o p : Output) → IsIn n (names o) → IsIn n (names (o ⊕ p))
  IsIn-names-left n o p h = IsIn-left n (names o) (names p) h

  pub IsIn-names-right : (n : String) (o p : Output) → IsIn n (names p) → IsIn n (names (o ⊕ p))
  IsIn-names-right n o p h = IsIn-right n (names o) (names p) h

  pub IsIn-each_at :
      {A B : Type 0} (at : A → Option B) (body : A → B → Output) (n : String) (xs : List A)
      (o : Output)
      → each_at at body xs ≡ ok o
      → (x : A) (b : B) → IsIn x xs
      → at x ≡ some b
      → IsIn n (names (body x b))
      → IsIn n (names o)
  unfolding each_at pointer
  IsIn-each_at at body n [] o e x b i there h = absurd i
  IsIn-each_at at body n (y ∷ xs) o e x b i there h =
      let (c, pointed, rest) = >>=-eq-ok (pointer (at y)) _ e in
      let (p, later, built) = >>=-eq-ok (each_at at body xs) _ rest in
      rw (← ok-injective built) (elim i [
        | inl same ↦
            let pointed' : at x ≡ some c = rw same (pointer-some (at y) c pointed) in
            let same' : b ≡ c = some-injective (sym there ∙ pointed') in
            IsIn-names-left n (body y c) p (rw (same, same') at h)
        | inr later_in ↦
            IsIn-names-right n (body y c) p (IsIn-each_at at body n xs p later x b later_in there h)
      ])

-- Where each pointer is there, the range is executed.
pub each_at-ok :
    {A B : Type 0} (at : A → Option B) (body : A → B → Output) (xs : List A)
    → All (λ x. (b : B) × (at x ≡ some b)) xs
    → (o : Output) × (each_at at body xs ≡ ok o)
unfolding each_at pointer
each_at-ok at body [] h = (pieces [], refl)
each_at-ok at body (x ∷ xs) ((b, there), h) =
    let (o, done) = each_at-ok at body xs h in (body x b ⊕ o, rw (each_at, there, done) refl)
