-- ===== src/Command/Complete.antt =====
-- What gen leaves when the file system and the templates do their part.
use eddwise.Base.{
  Text, Text-discrete, codes, List, [], ◌∷◌, ◌++◌, none, some, true, ◌≡◌, ◌≢◌, refl, sym, ap, ◌∙◌,
  subst, ite, if_pos, if_neg,
}
use eddwise.Design.Merge.{Design}
use eddwise.Design.Parsing.{Outcome, done}
use eddwise.Command.{
  Options, Entry, get_valid_files, Template, server_tmpl, server_test_tmpl, client_tmpl, made, Host,
  Step, directory, created, wrote, Run, ◌▹◌,
}
use eddwise.Command.Runs.{
  nothing, unless_dash, make_directory, create_file, execute, execute_with_go_fmt, prepare,
  server_dir, generate, gen_server, gen_client, gen_design, with_design, with_files, gen,
}

-- The files that a run leaves, with their contents.
abbrev pub written : List Step → List (Text × Text)
written [] = []
written (directory p ∷ steps) = written steps
written (created p ∷ steps) = written steps
written (wrote p s ∷ steps) = (p, s) ∷ written steps

-- The host makes every directory and file, and every template ends and can be formatted.
pub record IsWilling (host : Host) (d : Design) (formatted_text : Template → Text) : Type 0 where
  pub makes : (p : Text) → host.mkdir_all p ≡ made
  pub creates : (p : Text) → host.create p ≡ true
  pub expands : (t : Template) → (host.expand t d).1 ≡ true
  pub formats : (t : Template) → host.go_fmt (host.expand t d).0 ≡ some (formatted_text t)

-- A run that ends well and leaves these files.
abbrev pub Leaves : List (Text × Text) → Run → Type 0
Leaves files run = (run.1 ≡ none) × (written run.0 ≡ files)

abbrev pub unless_skipped : Text → List (Text × Text) → List (Text × Text)
unless_skipped base files = ite (Text-discrete base (codes "-")) [] files

written-append : (xs ys : List Step) → written (xs ++ ys) ≡ written xs ++ written ys
written-append [] ys = refl
written-append (directory p ∷ xs) ys = written-append xs ys
written-append (created p ∷ xs) ys = written-append xs ys
written-append (wrote p s ∷ xs) ys = ap (λ fs. (p, s) ∷ fs) (written-append xs ys)

then-Leaves :
    (fs gs : List (Text × Text)) (first next : Run)
    → Leaves fs first
    → Leaves gs next
    → Leaves (fs ++ gs) (first ▹ next)
then-Leaves fs gs (steps, some e) next h k = cc
then-Leaves fs gs (steps, none) next h k =
    (k.0, written-append steps next.0 ∙ ap (λ x. x ++ written next.0) h.1 ∙ ap (λ x. fs ++ x) k.1)

unless_dash-Leaves :
    (base : Text) (files : List (Text × Text)) (run : Run)
    → Leaves files run
    → Leaves (unless_skipped base files) (unless_dash base run)
unless_dash-Leaves base files run h = elim (Text-discrete base (codes "-")) [
  | yes e ↦
      subst (Leaves (unless_skipped base files)) (sym (if_pos _ e nothing run))
        (refl, sym (if_pos _ e [] files))
  | no e ↦
      subst (Leaves (unless_skipped base files)) (sym (if_neg _ e nothing run))
        (h.0, h.1 ∙ sym (if_neg _ e [] files))
]

with_files-some :
    (files : List Text) (run : List Text → Run) → files ≢ [] → with_files files run ≡ run files
with_files-some [] run h = absurd (h refl)
with_files-some (p ∷ ps) run h = refl

module _ (host : Host) (d : Design) (out : Template → Text) (v : IsWilling host d out) where
  make_directory-made : (dir : Text) → make_directory host dir ≡ (directory dir ∷ [], none)
  unfolding make_directory
  make_directory-made dir = rw (v.makes dir, make_directory) refl

  create_file-created : (path : Text) → create_file host path ≡ (created path ∷ [], none)
  unfolding create_file
  create_file-created path = rw (v.creates path, create_file) refl

  prepare-Leaves : (dir path : Text) → Leaves [] (prepare host dir path)
  prepare-Leaves dir path =
      then-Leaves [] [] (make_directory host dir) (create_file host path)
        (subst (Leaves []) (sym (make_directory-made dir)) (refl, refl))
        (subst (Leaves []) (sym (create_file-created path)) (refl, refl))

  execute-Leaves :
      (t : Template) (path : Text)
      → Leaves ((path, (host.expand t d).0) ∷ []) (execute host t d path)
  unfolding execute
  execute-Leaves t path = (rw (v.expands t) refl, refl)

  execute_with_go_fmt-Leaves :
      (t : Template) (path : Text) → Leaves ((path, out t) ∷ []) (execute_with_go_fmt host t d path)
  unfolding execute_with_go_fmt
  execute_with_go_fmt-Leaves t path =
      (rw (v.expands t, v.formats t) refl, rw (v.expands t, v.formats t) refl)

  generate-Leaves :
      (write : Template → Design → Text → Run) (t : Template) (dir path s : Text)
      → Leaves ((path, s) ∷ []) (write t d path)
      → Leaves ((path, s) ∷ []) (generate host write t d dir path)
  unfolding generate
  generate-Leaves write t dir path s h =
      then-Leaves [] ((path, s) ∷ []) (prepare host dir path) (write t d path)
        (prepare-Leaves dir path) h

  gen_server-Leaves :
      (base : Text)
      → let dir = server_dir base d in
        Leaves
          ((dir ++ codes "/channel.go", out server_tmpl)
            ∷ ((dir ++ codes "/behave") ++ codes "/channel.go", out server_test_tmpl)
            ∷ [])
          (gen_server host base d)
  unfolding gen_server
  gen_server-Leaves base =
      let dir = server_dir base d in
      let main = dir ++ codes "/channel.go" in
      let test = (dir ++ codes "/behave") ++ codes "/channel.go" in
      let go_file = execute_with_go_fmt host in
      then-Leaves ((main, out server_tmpl) ∷ []) ((test, out server_test_tmpl) ∷ [])
        (generate host go_file server_tmpl d dir main)
        (generate host go_file server_test_tmpl d (dir ++ codes "/behave") test)
        (generate-Leaves go_file server_tmpl dir main (out server_tmpl)
          (execute_with_go_fmt-Leaves server_tmpl main))
        (generate-Leaves go_file server_test_tmpl (dir ++ codes "/behave") test
          (out server_test_tmpl) (execute_with_go_fmt-Leaves server_test_tmpl test))

  gen_client-Leaves :
      (base : Text)
      → Leaves
          ((server_dir base d ++ codes "/channel.js", (host.expand client_tmpl d).0) ∷ [])
          (gen_client host base d)
  unfolding gen_client
  gen_client-Leaves base =
      let path = server_dir base d ++ codes "/channel.js" in
      generate-Leaves (execute host) client_tmpl (server_dir base d) path
        (host.expand client_tmpl d).0 (execute-Leaves client_tmpl path)

  -- On a willing host, gen of an accepted design ends well, and the files that it leaves are the
  -- formatted code of the server and of its test under the server path, and the code of the client under
  -- the client path, in the directory named like the design; "-" leaves out its part.
  pub gen-Leaves :
      (load : List Text → Outcome Design) (entries : List Entry) (o : Options)
      → get_valid_files entries ≢ []
      → load (get_valid_files entries) ≡ done d
      → let server = server_dir o.gen_code_server_path d in
        let client = server_dir o.gen_code_client_path d in
        ((gen host load entries o).1 ≡ none)
        × (written (gen host load entries o).0
            ≡ unless_skipped o.gen_code_server_path (
                (server ++ codes "/channel.go", out server_tmpl)
                ∷ ((server ++ codes "/behave") ++ codes "/channel.go", out server_test_tmpl)
                ∷ [])
              ++ unless_skipped o.gen_code_client_path
                  ((client ++ codes "/channel.js", (host.expand client_tmpl d).0) ∷ []))
  unfolding gen gen_design
  gen-Leaves load entries o some_files h =
      let server = server_dir o.gen_code_server_path d in
      let client = server_dir o.gen_code_client_path d in
      let run =
        with_files-some (get_valid_files entries) (λ ps. with_design (load ps) (gen_design host o))
          some_files
        ∙ ap (λ r. with_design r (gen_design host o)) h in
      subst (Leaves _) (sym run) (
        then-Leaves _ _ _ _
          (unless_dash-Leaves o.gen_code_server_path
            ((server ++ codes "/channel.go", out server_tmpl)
              ∷ ((server ++ codes "/behave") ++ codes "/channel.go", out server_test_tmpl)
              ∷ [])
            (gen_server host o.gen_code_server_path d) (gen_server-Leaves o.gen_code_server_path))
          (unless_dash-Leaves o.gen_code_client_path
            ((client ++ codes "/channel.js", (host.expand client_tmpl d).0) ∷ [])
            (gen_client host o.gen_code_client_path d) (gen_client-Leaves o.gen_code_client_path)))
