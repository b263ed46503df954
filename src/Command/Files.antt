-- ===== src/Command/Files.antt =====
-- Which files of the design path the command reads.
use eddwise.Base.{
  ℕ, zero, suc, ◌-◌, ◌<◌, Text, Text-discrete, codes, List, [], ◌∷◌, ◌++◌, true, false, At, here,
  there, ◌≡◌, ◌↔◌, ◌⊎◌, inl, inr, refl, sym, ap, ◌∙◌, subst, arith, dec_lt, length, length-append,
  Bool-cases,
}
use eddwise.Command.{Entry, drop, is_design_file, get_valid_files}

-- A path that ends in ".edd.yml", with something in front.
abbrev pub IsDesignPath : Text → Type 0
IsDesignPath p = (c : ℕ) × (rest : Text) × (p ≡ (c ∷ rest) ++ codes ".edd.yml")

drop-front :
    (n : ℕ) (s : Text) → 0 < length s → (c : ℕ) × (rest : Text) × (s ≡ (c ∷ rest) ++ drop (suc n) s)
drop-front n [] h = absurd (omega arith)
drop-front zero (c ∷ s) h = (c, [], refl)
drop-front (suc n) (c ∷ []) h = (c, [], refl)
drop-front (suc n) (c ∷ d ∷ s) h =
    let (x, rest, e) = drop-front n (d ∷ s) (omega arith) in (c, x ∷ rest, ap (λ xs. c ∷ xs) e)

drop-append : (w s : Text) → drop (length w) (w ++ s) ≡ s
drop-append [] s = refl
drop-append (c ∷ w) s = drop-append w s

suffix-IsDesignPath :
    (p : Text) → 8 < length p → drop (length p - 8) p ≡ codes ".edd.yml" → IsDesignPath p
suffix-IsDesignPath p long same =
    let at : suc (length p - 9) ≡ length p - 8 = omega arith in
    let (c, rest, e) = drop-front (length p - 9) p (omega arith) in
    (c, rest, e ∙ ap (λ n. (c ∷ rest) ++ drop n p) at ∙ ap (λ s. (c ∷ rest) ++ s) same)

suffix_of :
    (c : ℕ) (rest : Text)
    → let p = (c ∷ rest) ++ codes ".edd.yml" in
      (8 < length p) × (drop (length p - 8) p ≡ codes ".edd.yml")
suffix_of c rest =
    let p = (c ∷ rest) ++ codes ".edd.yml" in
    let total = length-append rest (codes ".edd.yml") in
    let at : length p - 8 ≡ length (c ∷ rest) = omega (arith, total) in
    (omega (arith, total), ap (λ n. drop n p) at ∙ drop-append (c ∷ rest) (codes ".edd.yml"))

is_design_file_iff :
    (e : Entry) → (is_design_file e ≡ true) ↔ ((e.skipped ≡ false) × IsDesignPath e.path)
unfolding is_design_file
is_design_file_iff e = (
  λ h. elim (Bool-cases e.skipped) [
    | inl s ↦ absurd (ground arith)
    | inr s ↦ elim (dec_lt 8 (length e.path)) [
      | no q ↦ absurd (ground arith)
      | yes q ↦ elim (Text-discrete (drop (length e.path - 8) e.path) (codes ".edd.yml")) [
        | no r ↦ absurd (ground arith)
        | yes r ↦ (s, suffix-IsDesignPath e.path q r)
      ]
    ]
  ],
  λ (s, (c, rest, same)).
      let (long, tail) = suffix_of c rest in
      let enough : 8 < length e.path = subst (λ p. 8 < length p) (sym same) long in
      let ends : drop (length e.path - 8) e.path ≡ codes ".edd.yml" =
        subst (λ p. drop (length p - 8) p ≡ codes ".edd.yml") (sym same) tail in
      ground arith,
)

At-cons : {A : Type 0} (a x : A) (xs : List A) → At a (x ∷ xs) → (x ≡ a) ⊎ At a xs
At-cons a x xs (here e) = inl e
At-cons a x xs (there m) = inr m

-- The files read are the entries that are neither directories nor unreadable and whose paths end in
-- ".edd.yml" with something in front.
pub get_valid_files_iff :
    (entries : List Entry) (p : Text)
    → At p (get_valid_files entries) ↔ (
        (e : Entry) × At e entries
        × (e.path ≡ p)
        × (e.skipped ≡ false)
        × ((c : ℕ) × (rest : Text) × (p ≡ (c ∷ rest) ++ codes ".edd.yml")))
unfolding get_valid_files
get_valid_files_iff [] p = (λ m. elim m [ ], λ (e, m, same, open_file, named). elim m [ ])
get_valid_files_iff (x ∷ es) p =
    let rest = get_valid_files_iff es p in
    let own = is_design_file_iff x in
    (
      λ m. elim (Bool-cases (is_design_file x)) [
        | inr no_file ↦
            let (e, at, same, open_file, named) =
              rest.0 (subst (At p) (rw (no_file, get_valid_files) refl) m) in
            (e, there at, same, open_file, named)
        | inl yes_file ↦
            elim (At-cons p x.path (get_valid_files es)
              (subst (At p) (rw (yes_file, get_valid_files) refl) m)) [
                | inl same ↦
                    let (open_file, named) = own.0 yes_file in
                    (x, here refl, same, open_file, subst IsDesignPath same named)
                | inr later ↦
                    let (e, at, same, open_file, named) = rest.0 later in
                    (e, there at, same, open_file, named)
              ]
      ],
      λ (e, at, same, open_file, named). elim at [
        | here found ↦
            let good : is_design_file x ≡ true = own.1 (
              subst (λ (y : Entry). y.skipped ≡ false) (sym found) open_file,
              subst IsDesignPath (sym (ap (λ (y : Entry). y.path) found ∙ same)) named,
            ) in
            rw (good, get_valid_files) (here (ap (λ (y : Entry). y.path) found ∙ same))
        | there later ↦
            let inside = rest.1 (e, later, same, open_file, named) in
            elim (Bool-cases (is_design_file x)) [
              | inl good ↦ rw (good, get_valid_files) (there inside)
              | inr bad ↦ rw (bad, get_valid_files) inside
            ]
      ],
    )
