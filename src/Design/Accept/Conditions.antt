-- ===== src/Design/Accept/Conditions.antt =====
-- What each check of Design.Validate accepts.
use mathlib.Core.List.{Perm, Mem, not-mem-nil, mem-cons, mem-cons_self, mem-cons_of_mem}
use mathlib.Core.List.Perm
use mathlib.Core.Logic.Or
use eddwise.Base.{
  Text, text_key, Dict, codes, get, keys, List, [], ◌∷◌, ◌++◌, Option, none, some, All, ◌≡◌, ◌≢◌,
  ◌↔◌, refl, arith, Option-cases, inl, inr,
}
use eddwise.Design.{Struct, DesignChannel, struct_name}
use eddwise.Design.Directions.{enabled_map}
use eddwise.Design.Merge.{Design}
use eddwise.Design.Validate.{ValidateError}
use eddwise.Design.Validate.Defined.{IsDefined}
use eddwise.Design.Accept.{
  first_error, check_marks, check_enabled, check_enabled_types, reserved_names, check_unused,
  check_reserved, check_directions,
}

-- Every key of the marks is enabled.
abbrev pub MarksEnabled : DesignChannel → Type 0
MarksEnabled ch =
    ((t : Text) → Mem t (keys ch.server_to_client) → get t (enabled_map ch) ≢ none)
    × ((t : Text) → Mem t (keys ch.client_to_server) → get t (enabled_map ch) ≢ none)

-- No struct has the name of the channel with one of the three endings.
abbrev pub Unreserved : Dict Text Struct → DesignChannel → Type 0
Unreserved m ch =
    (get (ch.name ++ codes "Context") m ≡ none)
    × (get (ch.name ++ codes "DefaultContext") m ≡ none)
    × (get (ch.name ++ codes "Recv") m ≡ none)

-- What a valid design is, by the map of its structs.
pub record IsValid (d : Design) (m : Dict Text Struct) : Type 0 where
  pub marks_enabled : All MarksEnabled d.channels
  pub enabled_known : All (λ ch. All (λ s. get (struct_name s) m ≢ none) ch.enabled) d.channels
  pub defined : All (IsDefined m) d.structs
  pub unreserved : All (Unreserved m) d.channels

pub first_error-none :
    (a b : Option ValidateError) → (first_error a b ≡ none) ↔ ((a ≡ none) × (b ≡ none))
first_error-none none b = (λ h. (refl, h), λ h. h.1)
first_error-none (some e) b = (λ h. cc, λ h. cc)

check_marks-none :
    (enabled : Dict Text Struct) (ts : List Text)
    → (check_marks enabled ts ≡ none) ↔ ((t : Text) → Mem t ts → get t enabled ≢ none)
unfolding check_marks
check_marks-none enabled [] = (λ h t mem. absurd (not-mem-nil mem), λ h. refl)
check_marks-none enabled (x ∷ ts) = (
  λ h t mem missing. elim (Option-cases (get x enabled)) [
    | inl e ↦ absurd (ground arith)
    | inr (s, e) ↦
        Or.elim (hlevel) (mem-cons.0 mem) (λ same. ground arith)
          (λ later. (check_marks-none enabled ts).0 (ground arith) t later missing)
  ],
  λ h. elim (Option-cases (get x enabled)) [
    | inl e ↦ absurd (h x mem-cons_self e)
    | inr (s, e) ↦
        rw (e, check_marks) ((check_marks-none enabled ts).1 (λ t mem. h t (mem-cons_of_mem x mem)))
  ],
)

check_enabled-none :
    (m : Dict Text Struct) (ss : List Struct)
    → (check_enabled m ss ≡ none) ↔ All (λ s. get (struct_name s) m ≢ none) ss
unfolding check_enabled
check_enabled-none m [] = (λ h. tt, λ h. refl)
check_enabled-none m (s ∷ ss) = (
  λ h. (λ missing. ground arith, (check_enabled-none m ss).0 (ground arith)),
  λ h. let rest = (check_enabled-none m ss).1 h.1 in ground (arith, h.0),
)

check_unused-none :
    (m : Dict Text Struct) (ts : List Text)
    → (check_unused m ts ≡ none) ↔ All (λ t. get t m ≡ none) ts
unfolding check_unused
check_unused-none m [] = (λ h. tt, λ h. refl)
check_unused-none m (t ∷ ts) = (
  λ h. (ground arith, (check_unused-none m ts).0 (ground arith)),
  λ h. let rest = (check_unused-none m ts).1 h.1 in ground arith,
)

pub check_enabled_types-none :
    (m : Dict Text Struct) (chs : List DesignChannel)
    → (check_enabled_types m chs ≡ none)
      ↔ All (λ ch. All (λ s. get (struct_name s) m ≢ none) ch.enabled) chs
unfolding check_enabled_types
check_enabled_types-none m [] = (λ h. tt, λ h. refl)
check_enabled_types-none m (ch ∷ chs) =
    let both = first_error-none (check_enabled m ch.enabled) (check_enabled_types m chs) in
    (
      λ h.
          let (here, later) = both.0 h in
          ((check_enabled-none m ch.enabled).0 here, (check_enabled_types-none m chs).0 later),
      λ (here, later).
          both.1
            ((check_enabled-none m ch.enabled).1 here, (check_enabled_types-none m chs).1 later),
    )

reserved_names_iff :
    (m : Dict Text Struct) (ch : DesignChannel)
    → All (λ t. get t m ≡ none) (reserved_names ch.name) ↔ Unreserved m ch
reserved_names_iff m ch = (
  λ h. (h.0, h.1.0, h.1.1.0),
  λ (context, default_context, recv). (context, (default_context, (recv, tt))),
)

pub check_reserved-none :
    (m : Dict Text Struct) (chs : List DesignChannel)
    → (check_reserved m chs ≡ none) ↔ All (Unreserved m) chs
unfolding check_reserved
check_reserved-none m [] = (λ h. tt, λ h. refl)
check_reserved-none m (ch ∷ chs) =
    let both = first_error-none (check_unused m (reserved_names ch.name)) (check_reserved m chs) in
    (
      λ h.
          let (here, later) = both.0 h in
          (
            (reserved_names_iff m ch).0 ((check_unused-none m (reserved_names ch.name)).0 here),
            (check_reserved-none m chs).0 later,
          ),
      λ (here, later). both.1 (
        (check_unused-none m (reserved_names ch.name)).1 ((reserved_names_iff m ch).1 here),
        (check_reserved-none m chs).1 later,
      ),
    )

-- A range over a map visits each of its keys.
abbrev pub IsFairOrder : ((A : Type 0) → List A → List A) → Type 1
IsFairOrder order = (A : Type 0) (xs : List A) → Perm (order A xs) xs

module _ (order : (A : Type 0) → List A → List A) (fair : IsFairOrder order) where
  check_keys-none :
      (enabled : Dict Text Struct) (ks : List Text)
      → (check_marks enabled (order Text ks) ≡ none)
        ↔ ((t : Text) → Mem t ks → get t enabled ≢ none)
  check_keys-none enabled ks =
      let marks = check_marks-none enabled (order Text ks) in
      (
        λ h t mem. marks.0 h t ((Perm.mem_iff (fair Text ks)).1 mem),
        λ h. marks.1 (λ t mem. h t ((Perm.mem_iff (fair Text ks)).0 mem)),
      )

  pub check_directions-none :
      (chs : List DesignChannel) → (check_directions order chs ≡ none) ↔ All MarksEnabled chs
  unfolding check_directions
  check_directions-none [] = (λ h. tt, λ h. refl)
  check_directions-none (ch ∷ chs) =
      let sent = check_keys-none (enabled_map ch) (keys ch.server_to_client) in
      let received = check_keys-none (enabled_map ch) (keys ch.client_to_server) in
      let rest = check_directions-none chs in
      let inner =
        first_error-none (check_marks (enabled_map ch) (order Text (keys ch.client_to_server)))
          (check_directions order chs) in
      let outer =
        first_error-none (check_marks (enabled_map ch) (order Text (keys ch.server_to_client))) (
          first_error (check_marks (enabled_map ch) (order Text (keys ch.client_to_server)))
            (check_directions order chs)) in
      (
        λ h.
            let (first, others) = outer.0 h in
            let (second, later) = inner.0 others in
            ((sent.0 first, received.0 second), rest.0 later),
        λ ((first, second), later).
            outer.1 (sent.1 first, inner.1 (received.1 second, rest.1 later)),
      )
