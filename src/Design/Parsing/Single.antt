-- ===== src/Design/Parsing/Single.antt =====
-- The generator's way from one file to a valid design.
use eddwise.Base.{
  ℕ, ◌<◌, Text, codes, ◌++◌, List, [], ◌∷◌, Option, none, some, All, Dict, get, text_key, ◌≡◌, ◌≢◌,
  ◌↔◌, ap, sym, ◌∙◌,
}
use eddwise.Design.{Struct, DesignChannel, struct_name}
use eddwise.Design.Directions.Known.{Known}
use eddwise.Design.Accept.{sort_design, validate}
use eddwise.Design.Accept.Conditions.{IsFairOrder}
use eddwise.Design.Accept.Valid.{IsGrounded, validate_iff}
use eddwise.Design.Merge.{Design, structs_map}
use eddwise.Design.Nodes.{NodeView}
use eddwise.Design.Validate.{ValidateError}
use eddwise.Design.Validate.Defined.{IsDefined}
use eddwise.Design.Parsing.{Outcome, done, ◌>>>◌}
use eddwise.Design.Parsing.Files.{
  RawDesign, RawChannel, judged, parse_yaml, parse_rest, parse_and_validate_yamls,
}
use eddwise.Design.Parsing.Sound.{parse_yaml-IsSound}

pub judged-done :
    (v : Option (Design × Option ValidateError)) (d : Design)
    → (judged v ≡ done d) ↔ (v ≡ some (d, none))
judged-done none d = (λ h. cc, λ h. cc)
judged-done (some (x, some e)) d = (λ h. cc, λ h. cc)
judged-done (some (x, none)) d = (λ h. cc, λ h. cc)

All-first :
    {A : Type 0} (P Q : A → Type 0) (xs : List A) → All (λ x. P x × Q x) xs → All P xs × All Q xs
All-first P Q [] h = (tt, tt)
All-first P Q (x ∷ xs) h = let (ps, qs) = All-first P Q xs h.1 in ((h.0.0, ps), (h.0.1, qs))

All-known :
    (m : Dict Text Struct) (ss : List Struct)
    → All (λ s. get (struct_name s) m ≡ some s) ss
    → All (λ s. get (struct_name s) m ≢ none) ss
All-known m [] h = tt
All-known m (s ∷ ss) h = (λ missing. cc, All-known m ss h.1)

All-Known :
    (m : Dict Text Struct) (chs : List DesignChannel)
    → All (Known m) chs
    → All (λ ch. All (λ s. get (struct_name s) m ≢ none) ch.enabled) chs
All-Known m [] h = tt
All-Known m (ch ∷ chs) h = (All-known m ch.enabled h.0, All-Known m chs h.1)

module _ {N : Type 0} (view : NodeView N) (decode : N → Option (RawChannel N))
    (order : (A : Type 0) → List A → List A) (files : Text → Option (RawDesign N)) (fuel depth : ℕ)
    (path : Text) (d : Design) where
  -- A file that is read is accepted exactly if every primitive of its structs is known, every reference
  -- in them names a struct of the file, and no struct is named like a channel with Context,
  -- DefaultContext or Recv after it: the checks of directions and of enabled events never fail. The
  -- references go down a rank, and the fuel is above it.
  pub parse_and_validate_yamls_iff :
      (rank : Text → ℕ) (n : ℕ)
      → IsFairOrder order
      → n < depth
      → parse_yaml view decode files fuel path ≡ done d
      → IsGrounded d (structs_map d).1 rank n
      → (parse_and_validate_yamls view decode order files fuel depth (path ∷ [])
          ≡ done (sort_design (structs_map d).0))
        ↔ (All (IsDefined (structs_map d).1) d.structs
            × All
                (λ ch.
                  (get (ch.name ++ codes "Context") (structs_map d).1 ≡ none)
                  × (get (ch.name ++ codes "DefaultContext") (structs_map d).1 ≡ none)
                  × (get (ch.name ++ codes "Recv") (structs_map d).1 ≡ none))
                d.channels)
  unfolding parse_and_validate_yamls
  parse_and_validate_yamls_iff rank n fair enough h v =
      let run : parse_and_validate_yamls view decode order files fuel depth (path ∷ [])
          ≡ judged (validate order depth d) =
        ap
          (λ (o : Outcome Design).
            o
            >>> (λ x. parse_rest view decode files fuel x [])
            >>> (λ x. judged (validate order depth x)))
          h in
      let valid = (validate_iff order rank n depth d fair enough v).1 in
      let judge = judged-done (validate order depth d) (sort_design (structs_map d).0) in
      (
        λ e. let whole = valid.0 (judge.0 (sym run ∙ e)) in (whole.defined, whole.unreserved),
        λ (defined, unreserved).
            let (names, aliases, usable) = parse_yaml-IsSound view decode files fuel path d h in
            let (marks, known) = All-first _ _ d.channels usable in
            run
            ∙ judge.1 (
                valid.1 (record {
                  marks_enabled = marks;
                  enabled_known = All-Known (structs_map d).1 d.channels known;
                  defined = defined;
                  unreserved = unreserved;
                })),
      )
