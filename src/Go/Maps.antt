-- ===== src/Go/Maps.antt =====
-- Go's maps with text keys. The entries stand in the order in which a `range` loop meets them, which
-- Go leaves open: a theorem over all lists of entries covers each such order.
pub mod Keys
use interlock_old.Prelude.{
  String, ◌≡◌, refl, Bool, true, false, Option, none, some, List, [], ◌∷◌, ◌++◌, arith, ◌==◌,
  eq_iff, if◌then◌else◌,
}

abbrev pub Map {ℓ} : Type ℓ → Type ℓ
Map V = List (String × V)

module _ {ℓ} {V : Type ℓ} where
  -- v, ok := m[k]
  unfoldable pub lookup : String → Map V → Option V
  lookup key [] = none
  lookup key ((at, value) ∷ more) =
      let later = lookup key more in if at == key then some value else later

  -- m[k], which is the zero value of the type where the key is missing
  unfoldable pub index : V → String → Map V → V
  unfolding lookup
  index d k m = elim (lookup k m) [ none ↦ d | some v ↦ v ]

  unfoldable pub has_key : String → Map V → Bool
  unfolding lookup
  has_key k m = elim (lookup k m) [ none ↦ false | some v ↦ true ]

  -- m[k] = v
  unfoldable pub insert : String → V → Map V → Map V
  insert key value [] = (key, value) ∷ []
  insert key value ((at, old) ∷ more) =
      let kept = (at, old) ∷ insert key value more in
      if at == key then (key, value) ∷ more else kept

  -- delete(m, k)
  unfoldable pub delete : String → Map V → Map V
  delete k [] = []
  delete k ((j, v) ∷ m) = let rest = delete k m in if j == k then rest else (j, v) ∷ rest

  pub lookup-insert :
      (set get : String) (value : V) (entries : Map V)
      → lookup get (insert set value entries)
        ≡ (if set == get then some value else lookup get entries)
  unfolding lookup insert
  lookup-insert set get value [] = refl
  lookup-insert set get value ((at, old) ∷ more) =
      ground (arith, lookup-insert set get value more, eq_iff set get, eq_iff at set, eq_iff at get)

  pub lookup-delete :
      (k j : String) (m : Map V) → lookup j (delete k m) ≡ (if k == j then none else lookup j m)
  unfolding lookup delete
  lookup-delete k j [] = ground arith
  lookup-delete k j ((i, v) ∷ m) =
      ground (arith, eq_iff i k, eq_iff i j, eq_iff k j, lookup-delete k j m)

  pub index-insert :
      (d : V) (k j : String) (v : V) (m : Map V)
      → index d j (insert k v m) ≡ (if k == j then v else index d j m)
  unfolding index
  index-insert d k j v m = ground (arith, lookup-insert k j v m)

-- m[k] = append(m[k], v)
unfoldable pub append_at {ℓ} : {V : Type ℓ} → String → V → Map (List V) → Map (List V)
unfolding insert index
append_at k v m = insert k (index [] k m ++ v ∷ []) m

pub index-append_at {ℓ} :
    {V : Type ℓ} (k j : String) (v : V) (m : Map (List V))
    → index [] j (append_at k v m) ≡ (if k == j then index [] j m ++ v ∷ [] else index [] j m)
unfolding append_at
index-append_at k j v m = ground (arith, index-insert [] k j (index [] k m ++ v ∷ []) m, eq_iff k j)

pub ruleset map_laws = (lookup-insert, lookup-delete, index-insert, index-append_at)
