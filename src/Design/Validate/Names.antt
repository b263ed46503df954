-- ===== src/Design/Validate/Names.antt =====
-- The names that a type uses: references to structs, and names of primitives.
use eddwise.Base.{Text}
use eddwise.Design.{
  Kind, primitive, nested, ref, map_type, TypeWithAttributes, with_array, Fields, no_fields, field,
  Struct, struct,
}

-- Each reference satisfies `R`, and each primitive and key satisfies `P`.
module _ (R P : Text → Type 0) where
  unfoldable mutual
    pub Uses : Kind → Type 0
    Uses (primitive p) = P p
    Uses (nested s) = UsesInStruct s
    Uses (ref r) = R r
    Uses (map_type key t) = P key × UsesOf t

    pub UsesOf : TypeWithAttributes → Type 0
    UsesOf (with_array n k) = Uses k

    pub UsesInFields : Fields → Type 0
    UsesInFields no_fields = Unit
    UsesInFields (field tags name t doc fs) = UsesOf t × UsesInFields fs

    pub UsesInStruct : Struct → Type 0
    UsesInStruct (struct tags name fs doc) = UsesInFields fs

module _ (R R' S P P' : Text → Type 0) (both : (r : Text) → R r → R' r → S r) where
  mutual
    unfolding Uses

    Uses-both : (k : Kind) → Uses R P k → Uses R' P' k → Uses S P k
    Uses-both (primitive p) u v = u
    Uses-both (nested s) u v = UsesInStruct-both s u v
    Uses-both (ref r) u v = both r u v
    Uses-both (map_type key t) u v = (u.0, UsesOf-both t u.1 v.1)

    UsesOf-both : (t : TypeWithAttributes) → UsesOf R P t → UsesOf R' P' t → UsesOf S P t
    UsesOf-both (with_array n k) u v = Uses-both k u v

    UsesInFields-both :
        (fs : Fields) → UsesInFields R P fs → UsesInFields R' P' fs → UsesInFields S P fs
    UsesInFields-both no_fields u v = tt
    UsesInFields-both (field tags name t doc fs) u v =
        (UsesOf-both t u.0 v.0, UsesInFields-both fs u.1 v.1)

    pub UsesInStruct-both :
        (s : Struct) → UsesInStruct R P s → UsesInStruct R' P' s → UsesInStruct S P s
    UsesInStruct-both (struct tags name fs doc) u v = UsesInFields-both fs u v

module _ (R P : Text → Type 0) (every : (r : Text) → R r) (any_name : (p : Text) → P p) where
  mutual
    unfolding Uses

    Uses-every : (k : Kind) → Uses R P k
    Uses-every (primitive p) = any_name p
    Uses-every (nested s) = UsesInStruct-every s
    Uses-every (ref r) = every r
    Uses-every (map_type key t) = (any_name key, UsesOf-every t)

    UsesOf-every : (t : TypeWithAttributes) → UsesOf R P t
    UsesOf-every (with_array n k) = Uses-every k

    UsesInFields-every : (fs : Fields) → UsesInFields R P fs
    UsesInFields-every no_fields = tt
    UsesInFields-every (field tags name t doc fs) = (UsesOf-every t, UsesInFields-every fs)

    pub UsesInStruct-every : (s : Struct) → UsesInStruct R P s
    UsesInStruct-every (struct tags name fs doc) = UsesInFields-every fs
