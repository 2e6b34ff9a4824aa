-- ===== src/Beacon/Collect/Sound.antt =====
-- An engine whose answers a collection can use, and the calls that return.
use Prim.Native.String.{len, slice, [], ◌∷◌}
use Prim.Native.Char.{code}
use interlock_old.Prelude.{
  ◌≡◌, ◌≢◌, refl, inl, inr, String, List, [], ◌∷◌, All, Option, none, some, leb, eqb, Bool-cases,
}
use interlock_old.Go.Outcome.{Outcome, ok, err, panic}
use interlock_old.Go.Text.{slice_to}
use interlock_old.Platform.{ContainerJson}
use interlock_old.Engine.Effects.{IsCalm}
use interlock_old.Beacon.Collect.{StatsJson, Source, short_id, strip_slash, or_return}

-- The call returns, with a list whose items all have the property.
abbrev pub Yields : {R : Type 0} → (R → Type 0) → Outcome (List R) → Type 0
Yields {R} P m = (rs : List R) × (m ≡ ok rs) × All P rs

pub Yields-or_return :
    {A R : Type 0} {P : R → Type 0} (m : Outcome A) (next : A → Outcome (List R))
    → IsCalm m
    → ((a : A) → m ≡ ok a → Yields P (next a))
    → Yields P (or_return m next)
unfolding or_return
Yields-or_return (ok a) next calm h = h a refl
Yields-or_return (err e) next calm h = ([], refl, tt)
Yields-or_return panic next calm h = absurd calm

-- A line was decoded into a statistic, or was refused: it did not leave a nil pointer.
abbrev pub IsDecoded : Outcome (Option StatsJson) → Type 0
IsDecoded (ok (some s)) = Unit
IsDecoded (ok none) = ⊥
IsDecoded (err e) = Unit
IsDecoded panic = ⊥

abbrev pub IsNamed : Outcome ContainerJson → Type 0
IsNamed (ok info) = info.name ≢ ""
IsNamed (err e) = Unit
IsNamed panic = ⊥

-- An engine whose containers have names, whose client and decoder do not panic, and whose decoder leaves
-- no nil pointer.
pub record IsSound (source : Source) : Type 0 where
  pub container_list : IsCalm source.container_list
  pub container_inspect : (id : String) → IsNamed (source.container_inspect id)
  pub image_list : IsCalm source.image_list
  pub volume_list : IsCalm source.volume_list
  pub network_list : IsCalm source.network_list
  pub container_stats : (id : String) → IsCalm (source.container_stats id)
  pub unmarshal :
      (stats : Option StatsJson) (line : String) → IsDecoded (source.unmarshal stats line)

pub short_id-ok : (id : String) → (short : String) × (short_id id ≡ ok short)
unfolding short_id slice_to
short_id-ok id = elim (Bool-cases (leb 12 (len id))) [
  | inl long ↦ (slice id 0 12, rw (long, short_id, slice_to) refl)
  | inr short ↦ (id, rw (short, short_id) refl)
]

pub strip_slash-ok :
    (name : String) → name ≢ "" → (stripped : String) × (strip_slash name ≡ ok stripped)
unfolding strip_slash
strip_slash-ok [] named = absurd (named refl)
strip_slash-ok (c ∷ name) named = elim (Bool-cases (eqb (code c) b'/')) [
  | inl slash ↦ (name, rw (strip_slash, slash) refl)
  | inr other ↦ (c ∷ name, rw (strip_slash, other) refl)
]

pub IsNamed-IsCalm : (m : Outcome ContainerJson) → IsNamed m → IsCalm m
IsNamed-IsCalm (ok info) h = tt
IsNamed-IsCalm (err e) h = tt
IsNamed-IsCalm panic h = h

pub IsDecoded-IsCalm : (m : Outcome (Option StatsJson)) → IsDecoded m → IsCalm m
IsDecoded-IsCalm (ok s) h = tt
IsDecoded-IsCalm (err e) h = tt
IsDecoded-IsCalm panic h = h
