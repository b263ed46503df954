-- ===== src/Design/Merge.antt =====
-- Design.Merge, ParseYamls, StructsMap and ChannelsMap (eddgen_yml.go, eddgen.go): several files make
-- one design. The map of structs is cached in the design at its first use.
mod Unique
mod Tests
use eddwise.Base.{
  Text, Text-discrete, text_key, Dict, get, insert, List, [], ◌∷◌, ◌++◌, Option, none, some, ite,
}
use eddwise.Design.{Struct, DesignChannel, struct_name}

pub record Design : Type 0 where
  pub name : Text
  pub channels : List DesignChannel
  pub structs : List Struct
  pub struct_map : Option (Dict Text Struct)

pub data MergeError : Type 0 where
  namespace_mismatch : Text → Text → MergeError
  struct_declared channel_declared : Text → MergeError

unfoldable pub map_of_structs : List Struct → Dict Text Struct → Dict Text Struct
map_of_structs [] m = m
map_of_structs (s ∷ ss) m = map_of_structs ss (insert (struct_name s) s m)

unfoldable pub map_of_channels :
    List DesignChannel → Dict Text DesignChannel → Dict Text DesignChannel
map_of_channels [] m = m
map_of_channels (c ∷ cs) m = map_of_channels cs (insert c.name c m)

-- StructsMap: the design with its cache, and the map.
unfoldable pub structs_map : Design → Design × Dict Text Struct
unfolding map_of_structs
structs_map d = elim d.struct_map [
  | some m ↦ (d, m)
  | none ↦ let m = map_of_structs d.structs [] in (record d { struct_map = some m }, m)
]

unfoldable pub channels_map : Design → Dict Text DesignChannel
unfolding map_of_channels
channels_map d = map_of_channels d.channels []

-- The two loops of Merge, which append what the map does not hold.
unfoldable pub merge_structs : Dict Text Struct → List Struct → Design → Design × Option MergeError
merge_structs m [] d = (d, none)
merge_structs m (s ∷ ss) d = elim (get (struct_name s) m) [
  | some old ↦ (d, some (struct_declared (struct_name s)))
  | none ↦ merge_structs m ss (record d { structs = d.structs ++ s ∷ [] })
]

unfoldable pub merge_channels :
    Dict Text DesignChannel → List DesignChannel → Design → Design × Option MergeError
merge_channels m [] d = (d, none)
merge_channels m (c ∷ cs) d = elim (get c.name m) [
  | some old ↦ (d, some (channel_declared c.name))
  | none ↦ merge_channels m cs (record d { channels = d.channels ++ c ∷ [] })
]

unfoldable pub after_structs :
    List DesignChannel → Design × Option MergeError → Design × Option MergeError
unfolding merge_channels channels_map
after_structs cs (d, some e) = (d, some e)
after_structs cs (d, none) = merge_channels (channels_map d) cs d

-- Design.Merge.
unfoldable pub merge : Design → Design → Design × Option MergeError
unfolding merge_structs structs_map after_structs
merge d d2 =
    ite (Text-discrete d.name d2.name)
      (after_structs d2.channels (merge_structs (structs_map d).1 d2.structs (structs_map d).0))
      (d, some (namespace_mismatch d.name d2.name))

-- The loop of ParseYamls, over the designs of the files after the first one.
unfoldable pub merge_all : Design → List Design → Design × Option MergeError
unfolding merge
merge_all d [] = (d, none)
merge_all d (d2 ∷ ds) =
    let done = merge d d2 in elim done.1 [ none ↦ merge_all done.0 ds | some e ↦ (done.0, some e) ]
