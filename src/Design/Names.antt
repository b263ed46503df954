-- ===== src/Design/Names.antt =====
-- GoName and ProtocolAlias (structs.go). A text is a sequence of bytes; strings.Title is written for
-- ASCII, and leaves every other byte as it is.
pub mod Fixed
use eddwise.Base.{
  ℕ, ◌-◌, Text, List, [], ◌∷◌, Bool, true, false, ◌||◌, ◌&&◌, if◌then◌else◌, ite, ℕ_discrete,
  dec_le,
}
use eddwise.Design.{Tags, Struct, struct}

unfoldable pub between : ℕ → ℕ → ℕ → Bool
between lo hi c = ite (dec_le lo c) (ite (dec_le c hi) true false) false

-- The separators of strings.Title: every ASCII byte but letters, digits and the underscore.
unfoldable pub is_separator : ℕ → Bool
unfolding between
is_separator c =
    if between b'0' b'9' c || (between b'A' b'Z' c || (between b'a' b'z' c || between b'_' b'_' c))
    then false
    else between 0 127 c

unfoldable pub to_upper : ℕ → ℕ
unfolding between
to_upper c = if between b'a' b'z' c then c - 32 else c

-- strings.Title, after the byte `previous`.
unfoldable pub title_after : ℕ → Text → Text
unfolding is_separator to_upper
title_after previous [] = []
title_after previous (c ∷ s) = (if is_separator previous then to_upper c else c) ∷ title_after c s

unfoldable pub spaces_for_underscores : Text → Text
spaces_for_underscores [] = []
spaces_for_underscores (c ∷ s) = ite (ℕ_discrete c b'_') b' ' c ∷ spaces_for_underscores s

unfoldable pub without_spaces : Text → Text
without_spaces [] = []
without_spaces (c ∷ s) = let rest = without_spaces s in ite (ℕ_discrete c b' ') rest (c ∷ rest)

-- GoName.
unfoldable pub go_name : Text → Text
unfolding title_after spaces_for_underscores without_spaces
go_name str = without_spaces (title_after b' ' (spaces_for_underscores str))

-- ProtocolAlias of channels, structs and fields.
unfoldable pub alias_or : Text → Text → Text
alias_or [] name = name
alias_or (c ∷ alias) name = c ∷ alias

unfoldable pub struct_protocol_alias : Struct → Text
unfolding alias_or
struct_protocol_alias (struct tags name fs doc) = alias_or tags.alias name
