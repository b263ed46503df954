-- ===== src/Design/Names/Fixed.antt =====
-- A Go name has neither spaces nor underscores, and is its own Go name.
use eddwise.Base.{
  ℕ, Text, [], ◌∷◌, true, ◌≡◌, ◌≢◌, refl, ap, ◌∙◌, All, Bool-cases, inl, inr, if_pos, if_neg, sym,
  dec_le, arith, if◌then◌else◌, ℕ_discrete,
}
use eddwise.Design.Names.{
  between, is_separator, to_upper, title_after, spaces_for_underscores, without_spaces, go_name,
}

-- A byte that a Go name may hold.
abbrev pub NameByte : ℕ → Type 0
NameByte c = (c ≢ b' ') × (c ≢ b'_')

-- Each byte after a separator is its own upper case.
abbrev Titled : ℕ → Text → Type 0
Titled previous [] = Unit
Titled previous (c ∷ s) = ((if is_separator previous then to_upper c else c) ≡ c) × Titled c s

abbrev NoUnderscore : Text → Type 0
NoUnderscore = All (λ c. c ≢ b'_')

spaced-NoUnderscore : (s : Text) → NoUnderscore (spaces_for_underscores s)
unfolding spaces_for_underscores
spaced-NoUnderscore [] = tt
spaced-NoUnderscore (c ∷ s) = (λ e. ground arith, spaced-NoUnderscore s)

titled_byte : (previous c : ℕ) → c ≢ b'_' → (if is_separator previous then to_upper c else c) ≢ b'_'
unfolding to_upper between
titled_byte previous c h e = ground arith

titled-NoUnderscore :
    (previous : ℕ) (s : Text) → NoUnderscore s → NoUnderscore (title_after previous s)
unfolding title_after
titled-NoUnderscore previous [] h = tt
titled-NoUnderscore previous (c ∷ s) h = (titled_byte previous c h.0, titled-NoUnderscore c s h.1)

unspaced-NameByte : (s : Text) → NoUnderscore s → All NameByte (without_spaces s)
unfolding without_spaces
unspaced-NameByte [] h = tt
unspaced-NameByte (c ∷ s) h = elim (ℕ_discrete c b' ') [
  | yes p ↦ rw (if_pos _ p, without_spaces) (unspaced-NameByte s h.1)
  | no p ↦ rw (if_neg _ p, without_spaces) ((p, h.0), unspaced-NameByte s h.1)
]

upper-separator : (c : ℕ) → is_separator (to_upper c) ≡ is_separator c
unfolding is_separator to_upper between
upper-separator c = ground arith

titled_byte_fixed :
    (p q c : ℕ)
    → (is_separator q ≡ true → is_separator p ≡ true)
    → let c' = if is_separator p then to_upper c else c in
      ((if is_separator q then to_upper c' else c') ≡ c') × (is_separator c' ≡ is_separator c)
unfolding to_upper between
titled_byte_fixed p q c h = elim (Bool-cases (is_separator p)) [
  | inl e ↦ rw e (ground arith, upper-separator c)
  | inr e ↦ rw e (ground (arith, h), refl)
]

space_separator : is_separator b' ' ≡ true
unfolding is_separator between dec_le
space_separator = refl

Titled-again :
    (p q : ℕ) (s : Text)
    → (is_separator q ≡ true → is_separator p ≡ true)
    → Titled q (without_spaces (title_after p s))
unfolding title_after without_spaces
Titled-again p q [] h = tt
Titled-again p q (c ∷ s) h =
    let c' : ℕ = if is_separator p then to_upper c else c in
    let (fixed, same) = titled_byte_fixed p q c h in
    elim (ℕ_discrete c' b' ') [
      | yes e ↦
          rw (if_pos _ e, without_spaces)
            (Titled-again c q s (λ sep. sym same ∙ ap is_separator e ∙ space_separator))
      | no e ↦ rw (if_neg _ e, without_spaces) (fixed, Titled-again c c' s (λ sep. sym same ∙ sep))
    ]

spaces_for_underscores-same : (s : Text) → All NameByte s → spaces_for_underscores s ≡ s
unfolding spaces_for_underscores
spaces_for_underscores-same [] h = refl
spaces_for_underscores-same (c ∷ s) h = ground (arith, spaces_for_underscores-same s h.1)

without_spaces-same : (s : Text) → All NameByte s → without_spaces s ≡ s
unfolding without_spaces
without_spaces-same [] h = refl
without_spaces-same (c ∷ s) h = ground (arith, without_spaces-same s h.1)

title_after-same : (p : ℕ) (s : Text) → Titled p s → title_after p s ≡ s
unfolding title_after
title_after-same p [] h = refl
title_after-same p (c ∷ s) h = let rest = title_after-same c s h.1 in ground (arith, h.0)

go_name-NameByte : (str : Text) → All NameByte (go_name str)
unfolding go_name
go_name-NameByte str =
    unspaced-NameByte (title_after b' ' (spaces_for_underscores str))
      (titled-NoUnderscore b' ' (spaces_for_underscores str) (spaced-NoUnderscore str))

go_name-fixed : (name : Text) → All NameByte name → Titled b' ' name → go_name name ≡ name
unfolding go_name
go_name-fixed name bytes titled =
    ap (λ s. without_spaces (title_after b' ' s)) (spaces_for_underscores-same name bytes)
    ∙ ap without_spaces (title_after-same b' ' name titled)
    ∙ without_spaces-same name bytes

-- A Go name holds no space and no underscore, and the Go name of a Go name is that name, so that a name
-- which is spelled twice is spelled alike.
pub go_name_lem : (str : Text) → All NameByte (go_name str) × (go_name (go_name str) ≡ go_name str)
unfolding go_name
go_name_lem str = (
  go_name-NameByte str,
  go_name-fixed (go_name str) (go_name-NameByte str)
      (Titled-again b' ' b' ' (spaces_for_underscores str) (λ h. h)),
)
