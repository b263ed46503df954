-- ===== src/Command.antt =====
-- cmd/edd/main.go, and how eddgen.go runs its templates: the command that generates code. It calls the
-- file system and the packages template and format; `Host` holds their answers. A run is the list of
-- what it did and the message that it died of, if any.
pub mod Runs
mod Files
mod Touches
mod Inside
pub mod Complete
pub mod Expand
mod Tests
use eddwise.Base.{
  ℕ, zero, suc, ◌-◌, if◌then◌else◌, Text, Text-discrete, codes, List, [], ◌∷◌, ◌++◌, Option, none,
  some, Bool, true, false, ite, dec_lt, length,
}
use eddwise.Design.Merge.{Design}
use eddwise.Design.Parsing.{ParseError, Outcome, no_fuel, failed, done}

pub data Mode : Type 0 where
  gen_mode skeleton_mode : Mode

pub record Flags : Type 0 where
  pub spath : Text
  pub cpath : Text
  pub mod_name : Text
  pub version : Bool
  pub args : List Text

pub record Options : Type 0 where
  pub design_path : Text
  pub mode : Mode
  pub gen_code_server_path : Text
  pub gen_code_client_path : Text
  pub module_name : Text

-- What init leaves: the end of the program with an exit code, or its options.
pub data Started : Type 0 where
  exits : ℕ → Started
  runs : Options → Started

abbrev pub default_server : Mode → Text
default_server gen_mode = codes "gen"
default_server skeleton_mode = codes "cmd"

abbrev pub default_client : Mode → Text
default_client gen_mode = codes "gen"
default_client skeleton_mode = codes "web"

abbrev pub given_or : Text → Text → Text
given_or [] default = default
given_or (c ∷ s) default = c ∷ s

abbrev pub options_of : Flags → Text → Mode → Options
options_of flags path mode = record {
  design_path = path;
  mode = mode;
  gen_code_server_path = given_or flags.spath (default_server mode);
  gen_code_client_path = given_or flags.cpath (default_client mode);
  module_name = flags.mod_name;
}

unfoldable pub start_with : Flags → List Text → Started
start_with flags (path ∷ mode ∷ []) =
    ite (Text-discrete mode (codes "skeleton")) (runs (options_of flags path skeleton_mode))
      (ite (Text-discrete mode (codes "gen")) (runs (options_of flags path gen_mode)) (exits 1))
start_with flags _ = exits 1

-- init, after flag.Parse.
unfoldable pub start : Flags → Started
unfolding start_with
start flags = elim flags.version [ true ↦ exits 0 | false ↦ start_with flags flags.args ]

-- What filepath.Walk visits; `skipped` is an error of the entry, or a directory.
pub record Entry : Type 0 where
  pub path : Text
  pub skipped : Bool

abbrev pub drop : ℕ → Text → Text
drop zero s = s
drop (suc n) [] = []
drop (suc n) (c ∷ s) = drop n s

unfoldable pub is_design_file : Entry → Bool
is_design_file e =
    if e.skipped
    then false
    else ite (dec_lt 8 (length e.path))
        (ite (Text-discrete (drop (length e.path - 8) e.path) (codes ".edd.yml")) true false) false

-- getValidFilesInDesignPath; its caller refuses an empty list.
unfoldable pub get_valid_files : List Entry → List Text
unfolding is_design_file
get_valid_files [] = []
get_valid_files (e ∷ es) =
    let rest = get_valid_files es in if is_design_file e then e.path ∷ rest else rest

pub data Template : Type 0 where
  server_tmpl server_test_tmpl client_tmpl : Template
  skeleton_main_tmpl skeleton_package_tmpl skeleton_package_test_tmpl skeleton_page_tmpl : Template

-- os.MkdirAll: done, or an error of which os.IsExist says so or not.
pub data Made : Type 0 where
  made exists refused : Made

pub record Host : Type 0 where
  pub mkdir_all : Text → Made
  pub create : Text → Bool
  -- What a template writes, and whether it ends without an error; Command.Expand gives it.
  pub expand : Template → Design → Text × Bool
  pub go_fmt : Text → Option Text

pub data Step : Type 0 where
  directory created : Text → Step
  wrote : Text → Text → Step

pub data Fatal : Type 0 where
  no_design_files no_module : Fatal
  design_error : ParseError → Fatal
  design_fuel design_panic : Fatal
  no_directory no_file : Text → Fatal
  no_code : Template → Fatal

abbrev pub Run : Type 0
Run = List Step × Option Fatal

infixl 5 ◌▹◌
abbrev pub ◌▹◌ : Run → Run → Run
(steps, some e) ▹ next = (steps, some e)
(steps, none) ▹ next = (steps ++ next.0, next.1)
