-- ===== src/Codegen/Server/Given.antt =====
-- GenerateServer comes to its end on a design that Validate accepts.
use eddwise.Base.{
  ℕ, Text, Dict, List, [], ◌∷◌, ◌++◌, Option, none, some, At, here, there, ◌≡◌, refl, ap, subst,
  arith, Option-cases, inl, inr,
}
use eddwise.Design.{client_to_server, server_to_client, Struct, struct_name}
use eddwise.Design.Accept.{
  validate_structs, check_directions, check_enabled_types, check_reserved, first_error,
  check_design, sort_design, validate,
}
use eddwise.Design.Accept.Valid.{conclude-IsAccepted, structs_map-lists}
use eddwise.Design.Members.Given.{fields_with_strict_direction_lem}
use eddwise.Design.Merge.{Design, structs_map}
use eddwise.Design.Nodes.{NodeView}
use eddwise.Design.Parsing.{done}
use eddwise.Design.Parsing.Files.{RawDesign, RawChannel, parse_yamls, parse_and_validate_yamls}
use eddwise.Design.Parsing.Keyed.{bind-done}
use eddwise.Design.Parsing.Single.{judged-done}
use eddwise.Design.Sort.{sort_by}
use eddwise.Design.Validate.{Verdict, and_then, validate_struct}
use eddwise.Design.Validate.Defined.{IsAccepted, and_then-IsAccepted}
use eddwise.Design.Sort.Entries.{At-sort_by}
use eddwise.Codegen.Server.{struct_text, struct_code, structs_code, server_text, generate_server}

module _ (n : ℕ) (m : Dict Text Struct) where
  validate_structs-each :
      (ss : List Struct)
      → IsAccepted (validate_structs n m ss)
      → (s : Struct) → At s ss
      → IsAccepted (validate_struct n m s)
  unfolding validate_structs
  validate_structs-each [] h s at = elim at [ ]
  validate_structs-each (t ∷ ss) h s at =
      let (first, later) =
        (and_then-IsAccepted (validate_struct n m t) (validate_structs n m ss)).0 h in
      elim at [
        | here p ↦ subst (λ x. IsAccepted (validate_struct n m x)) p first
        | there q ↦ validate_structs-each ss later s q
      ]

  module _ (replace_word : Text → Text → Text → Text) where
    struct_code-Given :
        (s : Struct)
        → IsAccepted (validate_struct n m s)
        → (code : Text) × (struct_code replace_word n m s ≡ some code)
    unfolding struct_code
    struct_code-Given s ok =
        let (unsent, e, each) = fields_with_strict_direction_lem m client_to_server n s ok in
        let (invalid, f, other) = fields_with_strict_direction_lem m server_to_client n s ok in
        (struct_text replace_word s unsent invalid, rw (e, f) refl)

    structs_code-Given :
        (ss : List Struct)
        → ((s : Struct) → At s ss → IsAccepted (validate_struct n m s))
        → (code : Text) × (structs_code replace_word n m ss ≡ some code)
    unfolding structs_code
    structs_code-Given [] ok = ([], refl)
    structs_code-Given (s ∷ ss) ok =
        let (code, e) = struct_code-Given s (ok s (here refl)) in
        let (rest, f) = structs_code-Given ss (λ t at. ok t (there at)) in
        (code ++ rest, rw (e, f) refl)

module _ (order : (A : Type 0) → List A → List A) (fuel : ℕ) (d : Design) where
  check_design-each :
      IsAccepted (check_design order fuel d)
      → (s : Struct) → At s d.structs
      → IsAccepted (validate_struct fuel (structs_map d).1 s)
  unfolding check_design
  check_design-each h =
      let m : Dict Text Struct = (structs_map d).1 in
      let first : Verdict =
        some (first_error (check_directions order d.channels) (check_enabled_types m d.channels)) in
      let last : Verdict = some (check_reserved m d.channels) in
      let rest =
        (and_then-IsAccepted first (and_then (validate_structs fuel m d.structs) last)).0 h in
      validate_structs-each fuel m d.structs
        ((and_then-IsAccepted (validate_structs fuel m d.structs) last).0 rest.1).0

-- The map that Validate made is still that of the design.
sort_design-mapped :
    (d : Design) → (structs_map (sort_design (structs_map d).0)).1 ≡ (structs_map d).1
unfolding structs_map sort_design
sort_design-mapped d = elim (Option-cases d.struct_map) [
  | inl e ↦ ground arith
  | inr (m, e) ↦ ground arith
]

generate_server-validate :
    (replace_word : Text → Text → Text → Text) (order : (A : Type 0) → List A → List A) (fuel : ℕ)
    (d d' : Design)
    → validate order fuel d ≡ some (d', none)
    → (code : Text) × (generate_server replace_word fuel (structs_map d').1 d' ≡ some code)
unfolding generate_server validate sort_design
generate_server-validate replace_word order fuel d d' h =
    let (ok, left) = conclude-IsAccepted d d' (check_design order fuel d) h in
    let m = (structs_map d).1 in
    let mapped : (structs_map d').1 ≡ m =
      subst (λ x. (structs_map x).1 ≡ m) left (sort_design-mapped d) in
    let structs : d'.structs ≡ sort_by struct_name d.structs =
      subst (λ (x : Design). x.structs ≡ sort_by struct_name d.structs) left
        (ap (sort_by struct_name) (structs_map-lists d).0) in
    let (code, e) = structs_code-Given fuel m replace_word d'.structs (λ s at.
      check_design-each order fuel d ok s
        ((At-sort_by struct_name s d.structs).0 (subst (At s) structs at))) in
    (server_text replace_word d' code, rw (mapped, e) refl)

-- On a design that ParseAndValidateYamls has read from any files, GenerateServer meets no reference
-- without a struct and ends with the fuel that Validate needed: it gives the text of a package.
pub generate_server-parse_and_validate_yamls :
    {N : Type 0} (view : NodeView N) (decode : N → Option (RawChannel N))
    (order : (A : Type 0) → List A → List A) (files : Text → Option (RawDesign N))
    (replace_word : Text → Text → Text → Text) (fuel depth : ℕ) (paths : List Text) (d : Design)
    → parse_and_validate_yamls view decode order files fuel depth paths ≡ done d
    → (code : Text) × (generate_server replace_word depth (structs_map d).1 d ≡ some code)
unfolding parse_and_validate_yamls
generate_server-parse_and_validate_yamls view decode order files replace_word fuel depth paths d h =
    let (read, e, rest) = bind-done (parse_yamls view decode files fuel paths) _ d h in
    generate_server-validate replace_word order depth read d
      ((judged-done (validate order depth read) d).0 rest)
