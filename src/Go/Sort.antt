-- ===== src/Go/Sort.antt =====
-- The package sort: sort.Strings and sort.Ints.
use Prim.Native.Char.{code}
use Prim.Native.String.{[], ◌∷◌}
use mathlib.Core.List.{foldr, Perm}
use mathlib.Core.List.Perm
use mathlib.Core.Path.{ap₂}
use native.Mathlib.Nat.{ℕ_set}
use text.Mathlib.TextEquality.{Char-path, IsScalar-prop}
use interlock_old.Prelude.{
  ℕ, ◌≡◌, ◌↔◌, refl, arith, String, Bool, true, false, List, [], ◌∷◌, leb, eqb, ltb, Bool-cases,
  inl, inr, if◌then◌else◌,
}

-- A total order by its test.
pub record Ord (A : Type 0) : Type 0 where
  pub set : IsSet A
  pub at_most : A → A → Bool
  pub total : (a b : A) → at_most a b ≡ false → at_most b a ≡ true
  pub antisymm : (a b : A) → at_most a b ≡ true → at_most b a ≡ true → a ≡ b
  pub trans : (a b c : A) → at_most a b ≡ true → at_most b c ≡ true → at_most a c ≡ true

module _ {A : Type 0} ⦃o : Ord A⦄ where
  unfoldable pub insert_sorted : A → List A → List A
  insert_sorted x [] = x ∷ []
  insert_sorted x (y ∷ ys) =
      let later = insert_sorted x ys in if o.at_most x y then x ∷ y ∷ ys else y ∷ later

  unfoldable pub sort : List A → List A
  unfolding insert_sorted
  sort xs = foldr insert_sorted [] xs

  insert_sorted_comm :
      (x y : A) (l : List A)
      → insert_sorted x (insert_sorted y l) ≡ insert_sorted y (insert_sorted x l)
  unfolding insert_sorted
  insert_sorted_comm x y [] = ground (arith, o.total x y, o.antisymm x y)
  insert_sorted_comm x y (z ∷ l) = ground (
    arith,
    insert_sorted_comm x y l,
    o.total x y,
    o.antisymm x y,
    o.trans x y z,
    o.trans y x z,
    o.total x z,
    o.total y z,
    o.trans x z y,
    o.trans y z x,
  )

  insert_sorted-perm : (x : A) (l : List A) → Perm (insert_sorted x l) (x ∷ l)
  unfolding insert_sorted
  insert_sorted-perm x [] = Perm.refl (x ∷ [])
  insert_sorted-perm x (y ∷ ys) = elim (Bool-cases (o.at_most x y)) [
    | inl before ↦ rw before (Perm.refl (x ∷ y ∷ ys))
    | inr after ↦ rw after (Perm.trans (Perm.cons y (insert_sorted-perm x ys)) (Perm.swap x y ys))
  ]

  pub sort-perm : (l : List A) → Perm (sort l) l
  unfolding sort
  sort-perm [] = Perm.refl []
  sort-perm (x ∷ l) = Perm.trans (insert_sorted-perm x (sort l)) (Perm.cons x (sort-perm l))

  -- Two lists are sorted alike exactly if they hold the same items.
  pub sort-eq_iff : (xs ys : List A) → (sort xs ≡ sort ys) ↔ Perm xs ys
  unfolding sort
  sort-eq_iff xs ys = (
    (λ same. Perm.trans (Perm.symm (sort-perm xs)) (rw same (sort-perm ys))),
    λ p. Perm.foldr-eq (hlevel (o.set)) insert_sorted insert_sorted_comm p [],
  )

pub nat_antisymm : (a b : ℕ) → leb a b ≡ true → leb b a ≡ true → a ≡ b
nat_antisymm a b h k = ground (arith, h, k)

pub nat_total : (a b : ℕ) → leb a b ≡ false → leb b a ≡ true
nat_total a b h = ground (arith, h)

pub nat_trans : (a b c : ℕ) → leb a b ≡ true → leb b c ≡ true → leb a c ≡ true
nat_trans a b c h k = ground (arith, h, k)

instance abbrev pub nat_ord : Ord ℕ
nat_ord = record {
  set = ℕ_set;
  at_most = leb;
  total = nat_total;
  antisymm = nat_antisymm;
  trans = nat_trans;
}

-- Texts in the order of their characters' codes, which is the order of their bytes.
unfoldable pub text_at_most : String → String → Bool
text_at_most [] t = true
text_at_most (c ∷ s) [] = false
text_at_most (c ∷ s) (d ∷ t) =
    let later = text_at_most s t in
    if ltb (code c) (code d) then true else if eqb (code c) (code d) then later else false

pub text_total : (s t : String) → text_at_most s t ≡ false → text_at_most t s ≡ true
unfolding text_at_most
text_total [] t h = ground (arith, h)
text_total (c ∷ s) [] h = refl
text_total (c ∷ s) (d ∷ t) h = ground (arith, h, text_total s t)

pub text_antisymm : (s t : String) → text_at_most s t ≡ true → text_at_most t s ≡ true → s ≡ t
unfolding text_at_most
text_antisymm [] [] h k = refl
text_antisymm [] (d ∷ t) h k = ground (arith, k)
text_antisymm (c ∷ s) [] h k = ground (arith, h)
text_antisymm (c ∷ s) (d ∷ t) h k =
    let same : code c ≡ code d = ground (arith, h, k) in
    let first = Char-path c d same in
    let rest = text_antisymm s t (ground (arith, h, k, same)) (ground (arith, h, k, same)) in
    ap₂ ◌∷◌ first rest

pub text_trans :
    (s t u : String) → text_at_most s t ≡ true → text_at_most t u ≡ true → text_at_most s u ≡ true
unfolding text_at_most
text_trans [] t u h k = refl
text_trans (c ∷ s) [] u h k = ground (arith, h)
text_trans (c ∷ s) (d ∷ t) [] h k = ground (arith, k)
text_trans (c ∷ s) (d ∷ t) (e ∷ u) h k = ground (arith, h, k, text_trans s t u)

pub text_set : IsSet String
text_set = hlevel (IsScalar-prop)

instance abbrev pub text_ord : Ord String
text_ord = record {
  set = text_set;
  at_most = text_at_most;
  total = text_total;
  antisymm = text_antisymm;
  trans = text_trans;
}
