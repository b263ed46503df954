-- ===== src/Base.antt =====
-- The names that the other modules share: the libraries' and those of the children.
mod Lists
mod Strings
mod Maps
pub use Lists.*
pub use Strings.{Text, codes}
unfoldable pub use Strings.{sprint, Text-discrete}
pub use Maps.{
  Key, nat_key, text_key, Dict, keys, values, get-delete, get-insert, get-insert_self,
  get-delete_self, Distinct, delete-Distinct, insert-Distinct, delete_absent, length-delete, At-get,
  get-At,
}
unfoldable pub use Maps.{get, delete, insert}
pub use Prim.Native.Nat.{ℕ, zero, suc, ◌+◌, ◌-◌, ◌*◌, ◌/◌, ◌%◌, ◌^◌, ◌≤◌, ◌<◌}
pub use mathlib.Core.Path.{◌≡◌, refl, sym, ap, ◌∙◌, subst}
pub use mathlib.Core.Logic.{◌≢◌, ◌↔◌, ◌⊎◌, inl, inr, ite, if_pos, if_neg}
pub use mathlib.Core.Bool.{Bool, true, false, ◌&&◌, ◌||◌, not}
pub use mathlib.Core.Option.{Option, none, some}
pub use mathlib.Core.List.{List, [], ◌∷◌, ◌++◌, map, append-nil, append_assoc}
pub use native.Mathlib.Omega.{arith}
unfoldable pub use native.Mathlib.Decide.{dec_lt, dec_le, ℕ_discrete}
