-- ===== src/Base/Map.antt =====
-- Go's `map` as an association list over keys with decidable equality. `insert` overwrites in
-- place, so a map built from `empty` holds a key once, which `IsMap` states. The order in which
-- `range` visits the entries is the list's order: a statement about `find` holds for each order.
use mathlib.Core.Path.{◌≡◌, refl}
use mathlib.Core.Bool.{Bool, true, false}
use mathlib.Core.Option.{Option, none, some}
use mathlib.Core.List.{List, [], ◌∷◌}
use native.Mathlib.Omega.{arith}
use sakura_monitoring.Base.Tests.{Eq, if◌then◌else◌, beq_refl}

abbrev pub Map {ℓ} : Type ℓ → Type ℓ → Type ℓ
Map K V = List (K × V)

module _ {ℓ} {K V : Type ℓ} where
  -- What `retain` leaves of an entry.
  abbrev pub kept : (K → V → Bool) → K → Option V → Option V
  kept p k none = none
  kept p k (some v) = if p k v then some v else none

module _ {ℓ} {K V : Type ℓ} ⦃e : Eq K⦄ where
  abbrev pub empty : Map K V
  empty = []

  unfoldable pub get : K → Map K V → Option V
  get k [] = none
  get k ((j, v) ∷ m) = if e.beq j k then some v else get k m

  unfoldable pub insert : K → V → Map K V → Map K V
  insert k v [] = (k, v) ∷ []
  insert k v ((j, w) ∷ m) = if e.beq j k then (k, v) ∷ m else (j, w) ∷ insert k v m

  unfoldable pub delete : K → Map K V → Map K V
  delete k [] = []
  delete k ((j, v) ∷ m) = let rest = delete k m in if e.beq j k then rest else (j, v) ∷ rest

  -- A `range` loop that returns at the first entry which passes the test.
  unfoldable pub find : (K → V → Bool) → Map K V → Option (K × V)
  find p [] = none
  find p ((k, v) ∷ m) = let rest = find p m in if p k v then some (k, v) else rest

  -- A `range` loop that deletes the entries which fail the test.
  unfoldable pub retain : (K → V → Bool) → Map K V → Map K V
  retain p [] = []
  retain p ((k, v) ∷ m) = let rest = retain p m in if p k v then (k, v) ∷ rest else rest

  pub get-empty : (k : K) → get k empty ≡ none
  unfolding get
  get-empty k = refl

  pub get-insert :
      (k j : K) (v : V) (m : Map K V)
      → get j (insert k v m) ≡ (if e.beq k j then some v else get j m)
  unfolding get insert
  get-insert k j v [] = refl
  get-insert k j v ((i, w) ∷ m) =
      ground (arith, e.beq_iff k j, e.beq_iff i k, e.beq_iff i j, get-insert k j v m)

  pub get-delete :
      (k j : K) (m : Map K V) → get j (delete k m) ≡ (if e.beq k j then none else get j m)
  unfolding get delete
  get-delete k j [] = ground arith
  get-delete k j ((i, w) ∷ m) =
      ground (arith, e.beq_iff k j, e.beq_iff i k, e.beq_iff i j, get-delete k j m)

  -- No key stands twice.
  abbrev pub IsMap : Map K V → Type ℓ
  IsMap [] = Unit
  IsMap ((k, v) ∷ m) = (get k m ≡ none) × IsMap m

  pub insert-IsMap : (k : K) (v : V) (m : Map K V) → IsMap m → IsMap (insert k v m)
  unfolding insert get
  insert-IsMap k v [] h = (refl, tt)
  insert-IsMap k v ((j, w) ∷ m) h =
      ground (arith, insert-IsMap k v m h.1, get-insert k j v m, e.beq_iff j k, e.beq_iff k j)

  pub delete-IsMap : (k : K) (m : Map K V) → IsMap m → IsMap (delete k m)
  unfolding delete get
  delete-IsMap k [] h = tt
  delete-IsMap k ((j, w) ∷ m) h =
      ground (arith, delete-IsMap k m h.1, get-delete k j m, e.beq_iff j k, e.beq_iff k j)

  -- What `find` returns stands in the map and passes the test.
  pub find_sound :
      (p : K → V → Bool) (m : Map K V) (k : K) (v : V)
      → IsMap m
      → find p m ≡ some (k, v)
      → (get k m ≡ some v) × (p k v ≡ true)
  unfolding find get
  find_sound p [] k v d h = cc
  find_sound p ((j, w) ∷ m) k v d h =
      ground (arith, e.beq_iff j k, beq_refl k, find_sound p m k v d.1)

  -- `find` fails only where no entry passes the test.
  pub find_complete :
      (p : K → V → Bool) (m : Map K V) (k : K) (v : V)
      → find p m ≡ none
      → get k m ≡ some v
      → p k v ≡ false
  unfolding find get
  find_complete p [] k v h g = cc
  find_complete p ((j, w) ∷ m) k v h g = ground (arith, e.beq_iff j k, find_complete p m k v)

  pub get-retain-none :
      (p : K → V → Bool) (m : Map K V) (k : K) → get k m ≡ none → get k (retain p m) ≡ none
  unfolding retain get
  get-retain-none p [] k h = refl
  get-retain-none p ((j, w) ∷ m) k h = ground (arith, e.beq_iff j k, get-retain-none p m k)

  pub get-retain :
      (p : K → V → Bool) (k : K) (m : Map K V) → IsMap m → get k (retain p m) ≡ kept p k (get k m)
  unfolding retain get
  get-retain p k [] d = refl
  get-retain p k ((j, w) ∷ m) d =
      ground (arith, e.beq_iff j k, get-retain p k m d.1, get-retain-none p m k)

  pub retain-IsMap : (p : K → V → Bool) (m : Map K V) → IsMap m → IsMap (retain p m)
  unfolding retain get
  retain-IsMap p [] h = tt
  retain-IsMap p ((j, w) ∷ m) h = ground (arith, retain-IsMap p m h.1, get-retain-none p m j)

pub ruleset map_laws = (get-empty, get-insert, get-delete)
