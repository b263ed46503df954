-- ===== src/Design/JsTypes/Known.antt =====
-- Which of the types that Validate accepts have a name in JavaScript.
use eddwise.Base.{
  Text, Text-discrete, codes, List, [], ◌∷◌, At, here, there, All, All-at, none, Bool, true, false,
  ite, ◌≡◌, ◌↔◌, refl, sym, ◌∙◌, arith,
}
use eddwise.Design.Validate.{primitives, is_one_of, validate_primitive}
use eddwise.Design.JsTypes.{js_primitive}

abbrev pub complex_types : List Text
complex_types = codes "complex128" ∷ codes "complex64" ∷ []

abbrev pub is_unknown : Text → Bool
is_unknown p = ite (Text-discrete (js_primitive p) (codes "unknown")) true false

is_one_of-At : (xs : List Text) (t : Text) → is_one_of xs t ≡ true → At t xs
unfolding is_one_of
is_one_of-At [] t h = cc
is_one_of-At (x ∷ xs) t h = elim (Text-discrete x t) [
  | yes p ↦ here p
  | no p ↦ there (is_one_of-At xs t (ground arith))
]

primitives_checked : All (λ p. is_unknown p ≡ is_one_of complex_types p) primitives
unfolding js_primitive Text-discrete
primitives_checked = (
  refl,
  (
    refl,
    (
      refl,
      (
        refl,
        (
          refl,
          (
            refl,
            (
              refl,
              (
                refl,
                (
                  refl,
                  (
                    refl,
                    (
                      refl,
                      (refl, (refl, (refl, (refl, (refl, (refl, (refl, (refl, (refl, tt))))))))),
                    ),
                  ),
                ),
              ),
            ),
          ),
        ),
      ),
    ),
  ),
)

is_unknown_iff : (p : Text) → (is_unknown p ≡ true) ↔ (js_primitive p ≡ codes "unknown")
is_unknown_iff p = (λ h. ground arith, λ h. ground arith)

-- Of the primitive types that Validate accepts, exactly the two complex types are "unknown" in the
-- generated JavaScript.
pub js_primitive_unknown :
    (p : Text)
    → validate_primitive p ≡ none
    → (js_primitive p ≡ codes "unknown") ↔ (is_one_of complex_types p ≡ true)
unfolding validate_primitive
js_primitive_unknown p known =
    let listed : is_one_of primitives p ≡ true = ground arith in
    let same =
      All-at (λ q. is_unknown q ≡ is_one_of complex_types q) p primitives primitives_checked
        (is_one_of-At primitives p listed) in
    (λ h. sym same ∙ (is_unknown_iff p).1 h, λ h. (is_unknown_iff p).0 (same ∙ h))
