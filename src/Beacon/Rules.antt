-- ===== src/Beacon/Rules.antt =====
-- Which containers the rules choose.
use interlock_old.Prelude.{
  ◌≡◌, refl, ◌↔◌, ◌⊎◌, inl, inr, arith, String, Bool, true, false, [], ◌∷◌, All, ◌==◌, eq_iff,
  Bool-cases,
}
use interlock_old.Go.Outcome.{Outcome, ok}
use interlock_old.Go.Maps.{Map}
use interlock_old.Config.{Rule}
use interlock_old.Platform.{ContainerConfig}
use interlock_old.Beacon.{
  match_of, match_from, rule_match, is_image_match, is_label_match, is_name_match,
}

module _ (match_string : String → String → Outcome Bool) (cfg : ContainerConfig) where
  -- The rule is one for images, and its expression matches the container's image.
  abbrev pub Chooses : Rule → Type 0
  Chooses rule = (rule.type ≡ "image") × (match_string rule.regex cfg.image ≡ ok true)

  abbrev pub HasChoosingRule : Map Rule → Type 0
  HasChoosingRule [] = ⊥
  HasChoosingRule ((name, rule) ∷ rules) = Chooses rule ⊎ HasChoosingRule rules

  -- The expression of the rule compiles.
  abbrev pub IsCompiled : Rule → Type 0
  IsCompiled rule = (b : Bool) × (match_string rule.regex cfg.image ≡ ok b)

  match_of-Chooses :
      (rule : Rule)
      → IsCompiled rule
      → ((match_of match_string rule cfg ≡ ok true) × Chooses rule)
        ⊎ ((match_of match_string rule cfg ≡ ok false) × ¬ Chooses rule)
  unfolding match_of is_image_match is_label_match is_name_match
  match_of-Chooses rule (b, matched) = elim (Bool-cases (rule.type == "image")) [
    | inl image ↦
        let at : rule.type ≡ "image" = (eq_iff rule.type "image").0 image in
        let no_label : (rule.type == "label") ≡ false = rw at refl in
        let no_name : (rule.type == "name") ≡ false = rw at refl in
        elim (Bool-cases b) [
          | inl hit ↦ inl (
            rw (no_label, no_name, image, matched, match_of, hit) refl,
            (at, rw (matched, hit) refl),
          )
          | inr miss ↦ inr (
            rw (no_label, no_name, image, matched, match_of, miss) refl,
            λ c. cc (matched, miss, c.1),
          )
        ]
    | inr other ↦ inr (
      elim (Bool-cases (rule.type == "label")) [
        | inl label ↦ rw (label, match_of) refl
        | inr no_label ↦ elim (Bool-cases (rule.type == "name")) [
          | inl name ↦ rw (no_label, name, match_of) refl
          | inr no_name ↦ rw (no_label, no_name, other, match_of) refl
        ]
      ],
      λ c. cc (other, (eq_iff rule.type "image").1 c.0),
    )
  ]

  -- What the loop ends with: whether it had a match, or a rule chooses the container.
  match_from-HasChoosingRule :
      (rules : Map Rule) (m : Bool)
      → All (λ e. IsCompiled e.1) rules
      → (b : Bool) × (match_from match_string m rules cfg ≡ ok b)
        × ((b ≡ true) ↔ ((m ≡ true) ⊎ HasChoosingRule rules))
  unfolding match_from
  match_from-HasChoosingRule [] m h = (m, refl, ground arith)
  match_from-HasChoosingRule ((name, rule) ∷ rules) m (compiled, h) =
      elim (match_of-Chooses rule compiled) [
        | inl (hit, chooses) ↦
            let (b, ended, iff) = match_from-HasChoosingRule rules true h in
            (b, rw (hit, match_from) ended, ((λ e. inr (inl chooses)), (λ _. iff.1 (inl refl))))
        | inr (miss, other) ↦
            let (b, ended, iff) = match_from-HasChoosingRule rules m h in
            (
              b,
              rw (miss, match_from) ended,
              (
                (λ e. elim (iff.0 e) [
                  | inl held ↦ inl held
                  | inr some_later ↦ inr (inr some_later)
                ]),
                (λ c. elim c [
                  | inl held ↦ iff.1 (inl held)
                  | inr (inl chooses) ↦ absurd (other chooses)
                  | inr (inr some_later) ↦ iff.1 (inr some_later)
                ]),
              ),
            )
      ]

  -- A container whose rules all compile is collected exactly if a rule for images matches its image;
  -- rules for labels and names choose nothing.
  pub rule_match_iff :
      (rules : Map Rule)
      → All (λ e. IsCompiled e.1) rules
      → (b : Bool) × (rule_match match_string rules cfg ≡ ok b)
        × ((b ≡ true) ↔ HasChoosingRule rules)
  unfolding rule_match
  rule_match_iff rules h =
      let (b, ended, iff) = match_from-HasChoosingRule rules false h in
      (
        b,
        ended,
        (
          (λ e. elim (iff.0 e) [ inl wrong ↦ cc wrong | inr chosen ↦ chosen ]),
          (λ c. iff.1 (inr c)),
        ),
      )
