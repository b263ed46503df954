-- ===== src/Command/Touches.antt =====
-- The paths that a run of the command touches, step by step.
use eddwise.Base.{
  Text, Text-discrete, codes, List, [], ◌∷◌, ◌++◌, Option, none, some, Bool, true, false, All, ◌⊎◌,
  ◌≡◌, ◌≢◌, sym, subst, if◌then◌else◌, if_pos, if_neg,
}
use eddwise.Design.Merge.{Design}
use eddwise.Command.{
  Template, made, exists, refused, Host, Step, directory, created, wrote, no_directory, no_file,
  no_code, Run, ◌▹◌,
}
use eddwise.Command.Runs.{
  nothing, unless_dash, make_directory, create_file, execute, formatted, execute_with_go_fmt,
  prepare, generate,
}

abbrev pub step_path : Step → Text
step_path (directory p) = p
step_path (created p) = p
step_path (wrote p s) = p

-- Every path that a run touches.
abbrev pub Touches : (Text → Type 0) → Run → Type 0
Touches P run = All (λ s. P (step_path s)) run.0

-- A path is a directory's, or begins with it and a slash.
abbrev pub Under : Text → Text → Type 0
Under base path = (path ≡ base) ⊎ ((rest : Text) × (path ≡ base ++ (b'/' ∷ rest)))

pub All-join :
    {A : Type 0} (P : A → Type 0) (xs ys : List A) → All P xs → All P ys → All P (xs ++ ys)
All-join P [] ys h k = k
All-join P (x ∷ xs) ys h k = (h.0, All-join P xs ys h.1 k)

pub All-weaker :
    {A : Type 0} (P Q : A → Type 0) (xs : List A) → ((x : A) → P x → Q x) → All P xs → All Q xs
All-weaker P Q [] f h = tt
All-weaker P Q (x ∷ xs) f h = (f x h.0, All-weaker P Q xs f h.1)

module _ (P : Text → Type 0) where
  pub then-Touches :
      (first next : Run) → Touches P first → Touches P next → Touches P (first ▹ next)
  then-Touches (steps, some e) next h k = h
  then-Touches (steps, none) next h k = All-join (λ s. P (step_path s)) steps next.0 h k

  pub if-Touches :
      (b : Bool) (x y : Run) → Touches P x → Touches P y → Touches P (if b then x else y)
  if-Touches true x y h k = h
  if-Touches false x y h k = k

  pub unless_dash-Touches :
      (base : Text) (run : Run)
      → (base ≢ codes "-" → Touches P run)
      → Touches P (unless_dash base run)
  unless_dash-Touches base run h = elim (Text-discrete base (codes "-")) [
    | yes e ↦ subst (Touches P) (sym (if_pos _ e nothing run)) tt
    | no e ↦ subst (Touches P) (sym (if_neg _ e nothing run)) (h e)
  ]

  module _ (host : Host) where
    pub make_directory-Touches : (path : Text) → P path → Touches P (make_directory host path)
    unfolding make_directory
    make_directory-Touches path h =
        elim (host.mkdir_all path)
          as (λ m. Touches P (elim m [
            | made ↦ (directory path ∷ [], none)
            | exists ↦ ([], some (no_directory path))
            | refused ↦ nothing
          ])) [ made ↦ (h, tt) | exists ↦ tt | refused ↦ tt ]

    pub prepare-Touches : (dir path : Text) → P dir → P path → Touches P (prepare host dir path)
    unfolding create_file
    prepare-Touches dir path h k =
        then-Touches (make_directory host dir) (create_file host path)
          (make_directory-Touches dir h)
          (if-Touches (host.create path) (created path ∷ [], none) ([], some (no_file path)) (k, tt)
            tt)

    pub execute-Touches :
        (t : Template) (d : Design) (path : Text) → P path → Touches P (execute host t d path)
    unfolding execute
    execute-Touches t d path h = (h, tt)

    pub formatted-Touches :
        (t : Template) (path : Text) (o : Option Text) → P path → Touches P (formatted t path o)
    formatted-Touches t path none h = tt
    formatted-Touches t path (some s) h = (h, tt)

    pub execute_with_go_fmt-Touches :
        (t : Template) (d : Design) (path : Text)
        → P path
        → Touches P (execute_with_go_fmt host t d path)
    unfolding execute_with_go_fmt
    execute_with_go_fmt-Touches t d path h =
        let (text, fine) = host.expand t d in
        if-Touches fine (formatted t path (host.go_fmt text)) ([], some (no_code t))
          (formatted-Touches t path (host.go_fmt text) h) tt

    pub generate-Touches :
        (write : Template → Design → Text → Run) (t : Template) (d : Design) (dir path : Text)
        → P dir
        → P path
        → Touches P (write t d path)
        → Touches P (generate host write t d dir path)
    unfolding generate
    generate-Touches write t d dir path h k w =
        then-Touches (prepare host dir path) (write t d path) (prepare-Touches dir path h k) w
