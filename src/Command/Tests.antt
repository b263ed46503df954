-- ===== src/Command/Tests.antt =====
-- The command on the file of Design.Parsing.Tests, and a host that does everything.
use eddwise.Base.{
  ℕ, Text, Text-discrete, codes, text_key, List, [], ◌∷◌, ◌++◌, some, true, false, At, ◌≡◌, ◌↔◌,
  refl,
}
use eddwise.Design.Accept.{sort_design}
use eddwise.Design.Accept.Tests.{game, as_is}
use eddwise.Design.Merge.{Design, structs_map}
use eddwise.Design.Parsing.{Outcome}
use eddwise.Design.Parsing.Files.{parse_and_validate_yamls}
use eddwise.Design.Parsing.Tests.{view, decode, files}
use eddwise.Command.{
  Flags, Options, gen_mode, exits, runs, start, Entry, get_valid_files, made, Host,
}
use eddwise.Command.Files.{get_valid_files_iff}

abbrev flags : Flags
flags = record {
  spath = [];
  cpath = codes "-";
  mod_name = [];
  version = false;
  args = codes "design" ∷ codes "gen" ∷ [];
}

abbrev options : Options
options = record {
  design_path = codes "design";
  mode = gen_mode;
  gen_code_server_path = codes "gen";
  gen_code_client_path = codes "-";
  module_name = [];
}

start_runs : start flags ≡ runs options
unfolding start Text-discrete
start_runs = refl

start_exits : start (record flags { args = codes "design" ∷ [] }) ≡ exits 1
unfolding start
start_exits = refl

abbrev entries : List Entry
entries =
    record { path = codes "design"; skipped = true }
    ∷ record { path = codes ".edd.yml"; skipped = false }
    ∷ record { path = codes "design/a.edd.yml"; skipped = false }
    ∷ []

abbrev load : List Text → Outcome Design
load = parse_and_validate_yamls view decode as_is files 2 5

abbrev accepted : Design
accepted = sort_design (structs_map game).0

abbrev host : Host
host = record {
  mkdir_all = λ p. made;
  create = λ p. true;
  expand = λ t d. (d.name, true);
  go_fmt = λ s. some s;
}

get_valid_files_iff_example : At (codes ".edd.yml") (get_valid_files entries) ↔ (
    (e : Entry) × At e entries
    × (e.path ≡ codes ".edd.yml")
    × (e.skipped ≡ false)
    × ((c : ℕ) × (rest : Text) × (codes ".edd.yml" ≡ (c ∷ rest) ++ codes ".edd.yml")))
get_valid_files_iff_example = get_valid_files_iff entries (codes ".edd.yml")

abbrev as_named : Text → Text → Text → Text
as_named name go_name doc = doc
