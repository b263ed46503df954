-- ===== src/Command/Runs.antt =====
-- gen and skeleton (cmd/edd/main.go), with the functions of eddgen.go that they call to write a file.
use eddwise.Base.{
  Text, Text-discrete, codes, List, [], ◌∷◌, ◌++◌, Option, none, some, ite, if◌then◌else◌,
}
use eddwise.Design.Merge.{Design}
use eddwise.Design.Parsing.{Outcome, no_fuel, panicked, failed, done}
use eddwise.Command.{
  gen_mode, skeleton_mode, Options, Entry, get_valid_files, Template, server_tmpl, server_test_tmpl,
  client_tmpl, skeleton_main_tmpl, skeleton_package_tmpl, skeleton_package_test_tmpl,
  skeleton_page_tmpl, made, exists, refused, Host, directory, created, wrote, no_design_files,
  no_module, design_error, design_fuel, design_panic, no_directory, no_file, no_code, Run, ◌▹◌,
}

abbrev pub nothing : Run
nothing = ([], none)

-- "-" in place of a path skips that part.
abbrev pub unless_dash : Text → Run → Run
unless_dash base run = ite (Text-discrete base (codes "-")) nothing run

abbrev pub server_dir : Text → Design → Text
server_dir base d = base ++ (b'/' ∷ d.name)

abbrev pub with_design : Outcome Design → (Design → Run) → Run
with_design no_fuel run = ([], some design_fuel)
with_design panicked run = ([], some design_panic)
with_design (failed e) run = ([], some (design_error e))
with_design (done d) run = run d

abbrev pub with_files : List Text → (List Text → Run) → Run
with_files [] run = ([], some no_design_files)
with_files (p ∷ ps) run = run (p ∷ ps)

-- "you have to provide a module name to generate skeleton".
abbrev pub with_module : Text → Run → Run
with_module [] run = ([], some no_module)
with_module (c ∷ s) run = run

abbrev pub formatted : Template → Text → Option Text → Run
formatted t path none = ([], some (no_code t))
formatted t path (some text) = (wrote path text ∷ [], none)

module _ (host : Host) where
  -- The code dies of an error that says that the path exists, and of no other.
  unfoldable pub make_directory : Text → Run
  make_directory path = elim (host.mkdir_all path) [
    | made ↦ (directory path ∷ [], none)
    | exists ↦ ([], some (no_directory path))
    | refused ↦ nothing
  ]

  unfoldable pub create_file : Text → Run
  create_file path =
      if host.create path then (created path ∷ [], none) else ([], some (no_file path))

  -- tmpl.Execute into a file.
  unfoldable pub execute : Template → Design → Text → Run
  execute t d path =
      let (text, fine) = host.expand t d in
      (wrote path text ∷ [], if fine then none else some (no_code t))

  -- ExecuteTemplateWithGoFmt: a file is written only if the template and the formatter succeed.
  unfoldable pub execute_with_go_fmt : Template → Design → Text → Run
  execute_with_go_fmt t d path =
      let (text, fine) = host.expand t d in
      if fine then formatted t path (host.go_fmt text) else ([], some (no_code t))

  abbrev pub prepare : Text → Text → Run
  prepare dir path = make_directory dir ▹ create_file path

  -- GenerateServer, GenerateServerTest, GenerateClient.
  unfoldable pub generate : (Template → Design → Text → Run) → Template → Design → Text → Text → Run
  unfolding make_directory create_file
  generate write t d dir path = prepare dir path ▹ write t d path

  unfoldable pub gen_server : Text → Design → Run
  unfolding generate execute_with_go_fmt
  gen_server base d =
      let dir = server_dir base d in
      generate execute_with_go_fmt server_tmpl d dir (dir ++ codes "/channel.go")
      ▹ generate execute_with_go_fmt server_test_tmpl d (dir ++ codes "/behave")
          ((dir ++ codes "/behave") ++ codes "/channel.go")

  unfoldable pub gen_client : Text → Design → Run
  unfolding generate execute
  gen_client base d =
      let dir = server_dir base d in generate execute client_tmpl d dir (dir ++ codes "/channel.js")

  -- gen, of an accepted design.
  unfoldable pub gen_design : Options → Design → Run
  unfolding gen_server gen_client
  gen_design o d =
      unless_dash o.gen_code_server_path (gen_server o.gen_code_server_path d)
      ▹ unless_dash o.gen_code_client_path (gen_client o.gen_code_client_path d)

  -- SkeletonServer, of the paths of its three files.
  unfoldable pub skeleton_server : Design → Text → Text → Text → Run
  unfolding execute
  skeleton_server d main code test =
      execute skeleton_main_tmpl d main
      ▹ execute skeleton_package_tmpl d code
      ▹ execute skeleton_package_test_tmpl d test

  unfoldable pub skeleton_code : Text → Design → Run
  unfolding make_directory create_file skeleton_server
  skeleton_code base d =
      let main = server_dir base d ++ codes "/main.go" in
      let inner = codes "internal/" ++ d.name in
      let code = inner ++ (b'/' ∷ (d.name ++ codes ".go")) in
      let test = inner ++ (b'/' ∷ (d.name ++ codes "_test.go")) in
      prepare (server_dir base d) main
      ▹ prepare inner code
      ▹ prepare inner test
      ▹ skeleton_server d main code test

  unfoldable pub skeleton_page : Text → Design → Run
  unfolding generate execute
  skeleton_page base d =
      let dir = server_dir base d in
      generate execute skeleton_page_tmpl d dir (dir ++ codes "/app.html")

  -- skeleton, of an accepted design.
  unfoldable pub skeleton_design : Options → Design → Run
  unfolding skeleton_code skeleton_page
  skeleton_design o d =
      unless_dash o.gen_code_server_path (skeleton_code o.gen_code_server_path d)
      ▹ unless_dash o.gen_code_client_path (skeleton_page o.gen_code_client_path d)

  module _ (load : List Text → Outcome Design) (entries : List Entry) where
    unfoldable pub gen : Options → Run
    unfolding get_valid_files gen_design
    gen o = with_files (get_valid_files entries) (λ ps. with_design (load ps) (gen_design o))

    unfoldable pub skeleton : Options → Run
    unfolding get_valid_files skeleton_design
    skeleton o =
        with_files (get_valid_files entries)
          (λ ps. with_module o.module_name (with_design (load ps) (skeleton_design o)))

    -- main, after init; `load` is ParseAndValidateYamls of the files.
    unfoldable pub main : Options → Run
    unfolding gen skeleton
    main o = elim o.mode [ gen_mode ↦ gen o | skeleton_mode ↦ skeleton o ]
