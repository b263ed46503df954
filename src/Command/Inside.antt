-- ===== src/Command/Inside.antt =====
-- Where the command makes directories and files.
use eddwise.Base.{Text, codes, List, ◌++◌, ◌≡◌, ◌≢◌, ◌⊎◌}
use eddwise.Design.Merge.{Design}
use eddwise.Design.Parsing.{Outcome, done}
use eddwise.Command.{skeleton_mode, Options, Entry, get_valid_files, Host}
use eddwise.Command.Runs.{server_dir}
use eddwise.Command.Touches.{Touches, Under}

-- What a run of accepted design may touch: the design's own directory below each path that is not "-",
-- and the one below "internal" when a skeleton is made. Paths are compared as texts: what ".." in a
-- design's name makes of them is for the file system.
abbrev pub Allowed : Options → Design → Text → Type 0
Allowed o d path =
    ((o.gen_code_server_path ≢ codes "-")
      × (Under (server_dir o.gen_code_server_path d) path
          ⊎ ((o.mode ≡ skeleton_mode) × Under (codes "internal/" ++ d.name) path)))
    ⊎ ((o.gen_code_client_path ≢ codes "-") × Under (server_dir o.gen_code_client_path d) path)

module _ (host : Host) (o : Options) (d : Design) where
  abbrev Own : Text → Type 0
  Own = Allowed o d

module _ (host : Host) (load : List Text → Outcome Design) (entries : List Entry)
    (o : Options) where
  abbrev Accepted : Text → Type 0
  Accepted path = (d : Design) × (load (get_valid_files entries) ≡ done d) × Allowed o d path
