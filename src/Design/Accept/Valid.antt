-- ===== src/Design/Accept/Valid.antt =====
-- What Design.Validate accepts, and what it leaves.
use mathlib.Core.List.{Perm}
use eddwise.Base.{
  ℕ, ◌<◌, Text, text_key, Dict, get, List, [], ◌∷◌, Option, none, some, All, All-at, At, ◌≡◌, ◌↔◌,
  refl, subst, ap, arith,
}
use eddwise.Design.{Struct, struct_name}
use eddwise.Design.Merge.{Design, structs_map}
use eddwise.Design.Sort.{sort_by}
use eddwise.Design.Sort.Order.{IsSorted, sort_by-IsSorted, sort_by-perm}
use eddwise.Design.Validate.{ValidateError, Verdict, and_then, validate_struct}
use eddwise.Design.Validate.Names.{UsesInStruct-every}
use eddwise.Design.Validate.Ends.{AnyName, IsRanked, Ends, and_then-Ends, validate_struct-Ends}
use eddwise.Design.Validate.Defined.{
  IsDefined, IsAccepted, IsAccepted-IsDefined, IsDefined-IsAccepted, and_then-IsAccepted,
}
use eddwise.Design.Accept.{
  first_error, check_enabled_types, validate_structs, check_reserved, channel_name, sort_design,
  check_directions, check_design, conclude, validate,
}
use eddwise.Design.Accept.Conditions.{
  IsValid, IsFairOrder, first_error-none, check_enabled_types-none, check_reserved-none,
  check_directions-none,
}

-- The references of a design go down a rank below the fuel, and its map lists its structs.
pub record IsGrounded (d : Design) (m : Dict Text Struct) (rank : Text → ℕ) (n : ℕ) : Type 0 where
  pub ranked : IsRanked rank m
  pub bounded : (r : Text) → rank r < n
  pub mapped : (r : Text) (s : Struct) → get r m ≡ some s → At s d.structs

module _ (m : Dict Text Struct) (rank : Text → ℕ) (n fuel : ℕ) (enough : n < fuel)
    (ranked : IsRanked rank m) (bounded : (r : Text) → rank r < n) where
  validate_structs-Ends : (ss : List Struct) → Ends (validate_structs fuel m ss)
  unfolding validate_structs
  validate_structs-Ends [] = (none, refl)
  validate_structs-Ends (s ∷ ss) =
      and_then-Ends (validate_struct fuel m s) (validate_structs fuel m ss)
        (validate_struct-Ends rank m fuel n s ranked enough
          (UsesInStruct-every (λ r. rank r < n) AnyName bounded (λ p. tt) s))
        (validate_structs-Ends ss)

  validate_structs-IsAccepted :
      ((r : Text) (t : Struct) → get r m ≡ some t → IsDefined m t)
      → (ss : List Struct) → All (IsDefined m) ss
      → IsAccepted (validate_structs fuel m ss)
  unfolding validate_structs
  validate_structs-IsAccepted all [] h = refl
  validate_structs-IsAccepted all (s ∷ ss) h =
      (and_then-IsAccepted (validate_struct fuel m s) (validate_structs fuel m ss)).1 (
        IsDefined-IsAccepted rank m fuel n s ranked all enough
            (UsesInStruct-every (λ r. rank r < n) AnyName bounded (λ p. tt) s) h.0,
        validate_structs-IsAccepted all ss h.1,
      )

IsAccepted-All :
    (m : Dict Text Struct) (fuel : ℕ) (ss : List Struct)
    → IsAccepted (validate_structs fuel m ss)
    → All (IsDefined m) ss
unfolding validate_structs
IsAccepted-All m fuel [] h = tt
IsAccepted-All m fuel (s ∷ ss) h =
    let (here, later) =
      (and_then-IsAccepted (validate_struct fuel m s) (validate_structs fuel m ss)).0 h in
    (IsAccepted-IsDefined m fuel s here, IsAccepted-All m fuel ss later)

some-none : {e : Option ValidateError} → ◌≡◌ {A = Verdict} (some e) (some none) → e ≡ none
some-none h = cc

conclude-Ends :
    (d : Design) (v : Verdict)
    → Ends v
    → (d' : Design) × (e : Option ValidateError) × (conclude d v ≡ some (d', e))
unfolding conclude
conclude-Ends d none (e, h) = cc
conclude-Ends d (some (some x)) h = (d, some x, refl)
conclude-Ends d (some none) h = (sort_design (structs_map d).0, none, refl)

pub conclude-IsAccepted :
    (d d' : Design) (v : Verdict)
    → conclude d v ≡ some (d', none)
    → IsAccepted v × (sort_design (structs_map d).0 ≡ d')
unfolding conclude
conclude-IsAccepted d d' none h = cc
conclude-IsAccepted d d' (some (some x)) h = cc
conclude-IsAccepted d d' (some none) h = (refl, cc)

pub structs_map-lists :
    (d : Design)
    → ((structs_map d).0.structs ≡ d.structs) × ((structs_map d).0.channels ≡ d.channels)
unfolding structs_map
structs_map-lists d = (ground arith, ground arith)

module _ (order : (A : Type 0) → List A → List A) (rank : Text → ℕ) (n fuel : ℕ) (d : Design) where
  check_design-Ends :
      n < fuel → IsGrounded d (structs_map d).1 rank n → Ends (check_design order fuel d)
  unfolding check_design
  check_design-Ends enough v =
      let m : Dict Text Struct = (structs_map d).1 in
      let first : Verdict =
        some (first_error (check_directions order d.channels) (check_enabled_types m d.channels)) in
      let last : Verdict = some (check_reserved m d.channels) in
      and_then-Ends first (and_then (validate_structs fuel m d.structs) last)
        (first_error (check_directions order d.channels) (check_enabled_types m d.channels), refl)
        (and_then-Ends (validate_structs fuel m d.structs) last
          (validate_structs-Ends m rank n fuel enough v.ranked v.bounded d.structs)
          (check_reserved m d.channels, refl))

  check_design-IsAccepted :
      IsFairOrder order
      → n < fuel
      → IsGrounded d (structs_map d).1 rank n
      → IsAccepted (check_design order fuel d) ↔ IsValid d (structs_map d).1
  unfolding check_design
  check_design-IsAccepted fair enough v =
      let m : Dict Text Struct = (structs_map d).1 in
      let checks =
        first_error-none (check_directions order d.channels) (check_enabled_types m d.channels) in
      let first : Verdict =
        some (first_error (check_directions order d.channels) (check_enabled_types m d.channels)) in
      let last : Verdict = some (check_reserved m d.channels) in
      let whole = and_then-IsAccepted first (and_then (validate_structs fuel m d.structs) last) in
      let rest = and_then-IsAccepted (validate_structs fuel m d.structs) last in
      (
        λ h.
            let (start, others) = whole.0 h in
            let (structs, finish) = rest.0 others in
            let (marks, enabled) = checks.0 (some-none start) in
            record {
              marks_enabled = (check_directions-none order fair d.channels).0 marks;
              enabled_known = (check_enabled_types-none m d.channels).0 enabled;
              defined = IsAccepted-All m fuel d.structs structs;
              unreserved = (check_reserved-none m d.channels).0 (some-none finish);
            },
        λ h. whole.1 (
          ap some (
              checks.1 (
                (check_directions-none order fair d.channels).1 h.marks_enabled,
                (check_enabled_types-none m d.channels).1 h.enabled_known,
              )),
          rest.1 (
            validate_structs-IsAccepted m rank n fuel enough v.ranked v.bounded
                (λ r t e. All-at (IsDefined m) t d.structs h.defined (v.mapped r t e)) d.structs
                h.defined,
            ap some ((check_reserved-none m d.channels).1 h.unreserved),
          ),
        ),
      )

  pub validate_iff :
      IsFairOrder order
      → n < fuel
      → IsGrounded d (structs_map d).1 rank n
      → ((d' : Design) × (e : Option ValidateError) × (validate order fuel d ≡ some (d', e)))
        × ((validate order fuel d ≡ some (sort_design (structs_map d).0, none))
            ↔ IsValid d (structs_map d).1)
  unfolding validate
  validate_iff fair enough v =
      let (e, ends) = check_design-Ends enough v in
      let valid = check_design-IsAccepted fair enough v in
      (
        conclude-Ends d (check_design order fuel d) (e, ends),
        (
          λ h.
              valid.0
                (conclude-IsAccepted d (sort_design (structs_map d).0) (check_design order fuel d)
                  h).0,
          λ h. ap (conclude d) (valid.1 h),
        ),
      )

-- What an accepted design is left as: its structs and its channels are those that it had, in the order
-- of their names.
pub validate-IsSorted :
    (order : (A : Type 0) → List A → List A) (fuel : ℕ) (d d' : Design)
    → validate order fuel d ≡ some (d', none)
    → IsSorted struct_name d'.structs
      × Perm d'.structs d.structs
      × IsSorted channel_name d'.channels
      × Perm d'.channels d.channels
unfolding validate sort_design
validate-IsSorted order fuel d d' h =
    let left = (conclude-IsAccepted d d' (check_design order fuel d) h).1 in
    let (structs, channels) = structs_map-lists d in
    (
      subst (λ (x : Design). IsSorted struct_name x.structs) left
          (sort_by-IsSorted struct_name (structs_map d).0.structs),
      subst (λ (x : Design). Perm x.structs d.structs) left
          (subst (λ xs. Perm (sort_by struct_name (structs_map d).0.structs) xs) structs
            (sort_by-perm struct_name (structs_map d).0.structs)),
      subst (λ (x : Design). IsSorted channel_name x.channels) left
          (sort_by-IsSorted channel_name (structs_map d).0.channels),
      subst (λ (x : Design). Perm x.channels d.channels) left
          (subst (λ xs. Perm (sort_by channel_name (structs_map d).0.channels) xs) channels
            (sort_by-perm channel_name (structs_map d).0.channels)),
    )
