-- ===== src/Design/Merge/Tests.antt =====
-- Merging at concrete designs: the first file declares Player, the second Move.
use eddwise.Base.{
  Text, Text-discrete, codes, text_key, get, insert, delete, [], ◌∷◌, none, ◌≡◌, ◌↔◌, refl,
}
use eddwise.Design.{any, Struct, struct, no_fields}
use eddwise.Design.Merge.{Design, merge, merge_all, structs_map, map_of_structs}
use eddwise.Design.Merge.Unique.{Mergeable, joined, merge_iff, merge_all-doubled}

abbrev named : Text → Struct
named name = struct (record { alias = []; direction = any }) name no_fields []

abbrev file : Text → Design
file name = record {
  name = codes "game";
  channels = [];
  structs = named name ∷ [];
  struct_map = none;
}

abbrev first : Design
first = file (codes "Player")

abbrev second : Design
second = file (codes "Move")

merge_iff_example :
    (((merge first second).1 ≡ none) ↔ Mergeable first second)
    × (((merge first second).1 ≡ none) ↔ (merge first second ≡ (joined first second, none)))
merge_iff_example = merge_iff first second

merge_all-doubled_example :
    ((merge_all first (second ∷ second ∷ [])).1 ≡ none)
    × ((merge_all first (second ∷ second ∷ [])).0.structs
        ≡ named (codes "Player") ∷ named (codes "Move") ∷ named (codes "Move") ∷ [])
unfolding structs_map map_of_structs get insert delete Text-discrete
merge_all-doubled_example = merge_all-doubled first second refl (refl, (refl, tt), tt)
