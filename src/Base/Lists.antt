-- ===== src/Base/Lists.antt =====
-- Lists counted by native numbers, membership by recursion, and splits on computed values.
use Prim.Native.Nat.{ℕ, suc, ◌+◌}
use mathlib.Core.Bool.{Bool, true, false}
use mathlib.Core.List.{List, [], ◌∷◌, ◌++◌}
use mathlib.Core.Logic.{◌⊎◌, inl, inr}
use mathlib.Core.Option.{Option, none, some}
use mathlib.Core.Path.{◌≡◌, refl, subst}
use native.Mathlib.Omega.{arith}

infix 1 if◌then◌else◌
abbrev pub if◌then◌else◌ {ℓ} : {A : Type ℓ} → Bool → A → A → A
if true then x else y = x
if false then x else y = y

pub Bool-cases : (b : Bool) → (b ≡ true) ⊎ (b ≡ false)
Bool-cases true = inl refl
Bool-cases false = inr refl

pub Option-cases {ℓ} : {A : Type ℓ} (o : Option A) → (o ≡ none) ⊎ ((a : A) × (o ≡ some a))
Option-cases none = inl refl
Option-cases (some a) = inr (a, refl)

-- `x, err := f(); if err != nil { return }` over a value that may be absent.
infixl 5 ◌>>=◌
abbrev pub ◌>>=◌ {ℓ κ} : {A : Type ℓ} {B : Type κ} → Option A → (A → Option B) → Option B
none >>= f = none
some a >>= f = f a

module _ {ℓ} {A : Type ℓ} where
  abbrev pub length : List A → ℕ
  length [] = 0
  length (x ∷ xs) = suc (length xs)

  pub length-append : (xs ys : List A) → length (xs ++ ys) ≡ length xs + length ys
  length-append [] ys = omega arith
  length-append (x ∷ xs) ys = omega (arith, length-append xs ys)

  -- The places at which a value stands in a list.
  pub data At (a : A) : List A → Type ℓ where
    here : {x : A} {xs : List A} → x ≡ a → At a (x ∷ xs)
    there : {x : A} {xs : List A} → At a xs → At a (x ∷ xs)

  pub At-append_left : (a : A) (xs ys : List A) → At a xs → At a (xs ++ ys)
  At-append_left a [] ys m = elim m [ ]
  At-append_left a (x ∷ xs) ys (here e) = here e
  At-append_left a (x ∷ xs) ys (there m) = there (At-append_left a xs ys m)

  pub At-append_right : (a : A) (xs ys : List A) → At a ys → At a (xs ++ ys)
  At-append_right a [] ys m = m
  At-append_right a (x ∷ xs) ys m = there (At-append_right a xs ys m)

  pub At-append : (a : A) (xs ys : List A) → At a (xs ++ ys) → At a xs ⊎ At a ys
  At-append a [] ys m = inr m
  At-append a (x ∷ xs) ys (here e) = inl (here e)
  At-append a (x ∷ xs) ys (there m) = elim (At-append a xs ys m) [
    | inl l ↦ inl (there l)
    | inr r ↦ inr r
  ]

  abbrev pub All {κ} : (A → Type κ) → List A → Type κ
  All P [] = Unit
  All P (x ∷ xs) = P x × All P xs

  pub All-at {κ} : (P : A → Type κ) (a : A) (xs : List A) → All P xs → At a xs → P a
  All-at P a [] h m = elim m [ ]
  All-at P a (x ∷ xs) h (here e) = subst P e h.0
  All-at P a (x ∷ xs) h (there m) = All-at P a xs h.1 m
