-- ===== src/Base/Maps.antt =====
-- Go maps as association lists. A key type is an instance of `Key`; a write puts the entry in front
-- and drops the older one, so the order of the entries carries no meaning.
use Prim.Native.Nat.{ℕ, suc}
use mathlib.Core.List.{List, [], ◌∷◌, map}
use mathlib.Core.Logic.{ite}
use mathlib.Core.Option.{Option, none, some}
use mathlib.Core.Path.{◌≡◌, refl}
use native.Mathlib.Decide.{ℕ_discrete}
use native.Mathlib.Omega.{arith}
use eddwise.Base.Lists.{length, At, here, there}
use eddwise.Base.Strings.{Text, Text-discrete}

pub record Key {ℓ} (K : Type ℓ) : Type ℓ where
  pub same : Discrete K

instance abbrev pub nat_key : Key ℕ
nat_key = record { same = ℕ_discrete }

instance abbrev pub text_key : Key Text
text_key = record { same = Text-discrete }

abbrev pub Dict {ℓ} : Type ℓ → Type ℓ → Type ℓ
Dict K V = List (K × V)

module _ {ℓ} {K : Type ℓ} {V : Type ℓ} where
  abbrev pub keys : Dict K V → List K
  keys = map (λ e. e.0)

  abbrev pub values : Dict K V → List V
  values = map (λ e. e.1)

module _ {ℓ} {K : Type ℓ} ⦃e : Key K⦄ {V : Type ℓ} where
  unfoldable pub get : K → Dict K V → Option V
  get k [] = none
  get k ((j, v) ∷ m) = ite (e.same j k) (some v) (get k m)

  unfoldable pub delete : K → Dict K V → Dict K V
  delete k [] = []
  delete k ((j, v) ∷ m) = ite (e.same j k) (delete k m) ((j, v) ∷ delete k m)

  unfoldable pub insert : K → V → Dict K V → Dict K V
  unfolding delete
  insert k v m = (k, v) ∷ delete k m

  pub get-delete : (k j : K) (m : Dict K V) → get j (delete k m) ≡ ite (e.same k j) none (get j m)
  unfolding get delete
  get-delete k j [] = ground arith
  get-delete k j ((i, v) ∷ m) = ground (arith, get-delete k j m)

  pub get-insert :
      (k j : K) (v : V) (m : Dict K V) → get j (insert k v m) ≡ ite (e.same k j) (some v) (get j m)
  unfolding get insert
  get-insert k j v m = ground (arith, get-delete k j m)

  pub get-insert_self : (k : K) (v : V) (m : Dict K V) → get k (insert k v m) ≡ some v
  get-insert_self k v m = ground (arith, get-insert k k v m)

  pub get-delete_self : (k : K) (m : Dict K V) → get k (delete k m) ≡ none
  get-delete_self k m = ground (arith, get-delete k k m)

  -- No key stands twice.
  abbrev pub Distinct : Dict K V → Type ℓ
  Distinct [] = Unit
  Distinct ((k, v) ∷ m) = (get k m ≡ none) × Distinct m

  pub delete-Distinct : (k : K) (m : Dict K V) → Distinct m → Distinct (delete k m)
  unfolding delete
  delete-Distinct k [] d = tt
  delete-Distinct k ((j, v) ∷ m) d = ground (arith, get-delete k j m, delete-Distinct k m d.1)

  pub insert-Distinct : (k : K) (v : V) (m : Dict K V) → Distinct m → Distinct (insert k v m)
  unfolding insert
  insert-Distinct k v m d = (get-delete_self k m, delete-Distinct k m d)

  pub delete_absent : (k : K) (m : Dict K V) → get k m ≡ none → delete k m ≡ m
  unfolding get delete
  delete_absent k [] h = refl
  delete_absent k ((j, v) ∷ m) h = ground (arith, delete_absent k m)

  pub length-delete :
      (k : K) (m : Dict K V) (v : V)
      → Distinct m
      → get k m ≡ some v
      → length m ≡ suc (length (delete k m))
  unfolding get delete
  length-delete k [] v d h = cc
  length-delete k ((j, w) ∷ m) v d h = elim (e.same j k) [
    | yes p ↦ ground (arith, delete_absent k m)
    | no p ↦ ground (arith, length-delete k m v d.1)
  ]

  -- A read finds an entry of the map, and in a map with distinct keys every entry.
  pub At-get : (k : K) (v : V) (m : Dict K V) → get k m ≡ some v → At (k, v) m
  unfolding get
  At-get k v [] h = cc
  At-get k v ((j, w) ∷ m) h = elim (e.same j k) [
    | yes p ↦ here (ground arith)
    | no p ↦ there (At-get k v m (ground arith))
  ]

  pub get-At : (k : K) (v : V) (m : Dict K V) → Distinct m → At (k, v) m → get k m ≡ some v
  unfolding get
  get-At k v [] d a = elim a [ ]
  get-At k v ((j, w) ∷ m) d (here p) = ground arith
  get-At k v ((j, w) ∷ m) d (there a) = ground (arith, get-At k v m d.1 a)
