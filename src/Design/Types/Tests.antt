-- ===== src/Design/Types/Tests.antt =====
-- The notation of types at concrete texts.
use eddwise.Base.{ℕ_discrete, codes, some, ◌≡◌, refl, arith}
use eddwise.Design.{ref, map_type, TypeWithAttributes, with_array}
use eddwise.Design.Types.{parsed, bad_key, cut_arrow, parse_field_string_type}
use eddwise.Design.Types.Parse.{notation, plusses, notation-parse}
use eddwise.Design.Types.Readback.{parse-notation}

abbrev players : TypeWithAttributes
players = with_array 2 (map_type (codes "string") (with_array 1 (ref (codes "Player"))))

parse_runs : parse_field_string_type 30 (codes "++string->+.Player") ≡ some (parsed players)
unfolding parse_field_string_type ℕ_discrete
parse_runs = refl

refused_runs : parse_field_string_type 30 (codes ".Id->int") ≡ some (bad_key (codes ".Id"))
unfolding parse_field_string_type ℕ_discrete
refused_runs = refl

parse-notation_example : parse_field_string_type 30 (notation players) ≡ some (parsed players)
unfolding notation cut_arrow ℕ_discrete plusses
parse-notation_example = parse-notation 30 players (((λ e. cc, λ e. cc), refl), refl) (omega arith)

notation-parse_example : notation players ≡ codes "++string->+.Player"
notation-parse_example = notation-parse 30 (codes "++string->+.Player") players parse_runs
