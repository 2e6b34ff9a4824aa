-- ===== src/Go/Maps/Keys.antt =====
-- The entries of a map have distinct keys, and each is what its key looks up.
use interlock_old.Prelude.{
  String, ◌≡◌, ◌≢◌, sym, inl, inr, true, [], ◌∷◌, All, arith, ◌==◌, eq_iff, eq_refl, Bool-cases,
  if◌then◌else◌,
}
use interlock_old.Go.Maps.{Map, insert, lookup, has_key, index, lookup-insert}

module _ {ℓ} {V : Type ℓ} where
  abbrev pub LacksKey : String → Map V → Type 0
  LacksKey k m = All (λ e. e.0 ≢ k) m

  abbrev pub HasDistinctKeys : Map V → Type 0
  HasDistinctKeys [] = Unit
  HasDistinctKeys ((k, v) ∷ m) = LacksKey k m × HasDistinctKeys m

  insert-LacksKey :
      (j k : String) (v : V) (m : Map V) → k ≢ j → LacksKey j m → LacksKey j (insert k v m)
  unfolding insert
  insert-LacksKey j k v [] h a = (h, tt)
  insert-LacksKey j k v ((i, w) ∷ m) h (p, a) =
      ground (arith, eq_iff i k, insert-LacksKey j k v m h a)

  pub insert-HasDistinctKeys :
      (k : String) (v : V) (m : Map V) → HasDistinctKeys m → HasDistinctKeys (insert k v m)
  unfolding insert
  insert-HasDistinctKeys k v [] h = (tt, tt)
  insert-HasDistinctKeys k v ((i, w) ∷ m) (lacks, h) = elim (Bool-cases (i == k)) [
    | inl same ↦ rw (same) (rw (← (eq_iff i k).0 same) (lacks, h))
    | inr other ↦ rw other (
      insert-LacksKey i k v m (λ p. cc (other, (eq_iff i k).1 (sym p))) lacks,
      insert-HasDistinctKeys k v m h,
    )
  ]

  -- A predicate on entries is kept by an insertion of an entry that has it.
  pub All-insert {κ} :
      (P : String → V → Type κ) (k : String) (v : V) (m : Map V)
      → P k v
      → All (λ e. P e.0 e.1) m
      → All (λ e. P e.0 e.1) (insert k v m)
  unfolding insert
  All-insert P k v [] p a = (p, tt)
  All-insert P k v ((i, w) ∷ m) p (q, a) = elim (Bool-cases (i == k)) [
    | inl same ↦ rw same (p, a)
    | inr other ↦ rw other (q, All-insert P k v m p a)
  ]

  pub has_key-insert :
      (k j : String) (v : V) (m : Map V)
      → has_key j (insert k v m) ≡ (if k == j then true else has_key j m)
  unfolding has_key
  has_key-insert k j v m = ground (arith, lookup-insert k j v m)

  pub has_key-insert_self : (k : String) (v : V) (m : Map V) → has_key k (insert k v m) ≡ true
  has_key-insert_self k v m = rw (has_key-insert, eq_refl k)

  -- No key is lost by an insertion.
  pub has_key-insert_of :
      (k j : String) (v : V) (m : Map V) → has_key j m ≡ true → has_key j (insert k v m) ≡ true
  has_key-insert_of k j v m h = ground (arith, has_key-insert k j v m)

  -- The value of a key that is there is the value of an entry.
  pub All-index {κ} :
      (P : String → V → Type κ) (d : V) (k : String) (m : Map V)
      → has_key k m ≡ true
      → All (λ e. P e.0 e.1) m
      → P k (index d k m)
  unfolding has_key index lookup
  All-index P d k [] h a = cc
  All-index P d k ((i, w) ∷ m) h (q, a) = elim (Bool-cases (i == k)) [
    | inl same ↦
        let e : index d k ((i, w) ∷ m) ≡ w = ground arith in rw (e, ← (eq_iff i k).0 same) q
    | inr other ↦
        let e : index d k ((i, w) ∷ m) ≡ index d k m = ground arith in
        rw e (All-index P d k m (ground arith) a)
  ]

  -- What the default and every value have, the value looked up has.
  pub All-index_or {κ} :
      (P : V → Type κ) (d : V) (k : String) (m : Map V) → P d → All (λ e. P e.1) m → P (index d k m)
  unfolding index lookup
  All-index_or P d k [] p a = p
  All-index_or P d k ((i, w) ∷ m) p (q, a) = elim (Bool-cases (i == k)) [
    | inl same ↦ let e : index d k ((i, w) ∷ m) ≡ w = ground arith in rw e q
    | inr other ↦
        let e : index d k ((i, w) ∷ m) ≡ index d k m = ground arith in
        rw e (All-index_or P d k m p a)
  ]
