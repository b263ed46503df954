-- ===== src/Command/Expand/Generated.antt =====
-- From the files of a design to the files of its code.
use eddwise.Base.{Text, some, true, ◌≡◌}
use eddwise.Design.Merge.{Design}
use eddwise.Command.{made, Host}

-- The host makes every directory and file, and its formatter gives a text for every text.
pub record IsAble (host : Host) (tidy : Text → Text) : Type 0 where
  pub makes : (p : Text) → host.mkdir_all p ≡ made
  pub creates : (p : Text) → host.create p ≡ true
  pub formats : (s : Text) → host.go_fmt s ≡ some (tidy s)
