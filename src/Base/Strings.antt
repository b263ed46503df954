-- ===== src/Base/Strings.antt =====
-- Go strings as byte sequences, and the functions of `strings` and `fmt` that the code uses.
use Prim.Native.Nat.{ℕ, zero, suc, ◌+◌, ◌/◌, ◌%◌}
use Prim.Native.Char.{code}
use Prim.Native.String.{String}
use mathlib.Core.List.{List, [], ◌∷◌}
use mathlib.Core.Logic.{ite}
use mathlib.Core.Path.{◌≡◌, refl}
use native.Mathlib.Decide.{ℕ_discrete, dec_lt}

abbrev pub Text : Type 0
Text = List ℕ

-- The code points of a literal: its bytes, as every literal here is ASCII.
abbrev pub codes : String → Text
codes String.[] = []
codes (String.◌∷◌ c s) = code c ∷ codes s

unfoldable pub Text-discrete : Discrete Text
unfolding ℕ_discrete
Text-discrete = hlevel ℕ_discrete

-- The decimal digits of a number, the last ones given; a number has at most `n + 1` digits.
digits : ℕ → ℕ → Text → Text
digits zero n out = out
digits (suc f) n out =
    let d = b'0' + n % 10 in
    let more = digits f (n / 10) (d ∷ out) in ite (dec_lt n 10) (d ∷ out) more

-- `fmt.Sprint` of an unsigned number.
unfoldable pub sprint : ℕ → Text
unfolding digits dec_lt
sprint n = digits (suc n) n []

sprint_runs : sprint 4095 ≡ codes "4095"
unfolding sprint
sprint_runs = refl

text_runs : ◌≡◌ {A = ℕ} (ite (Text-discrete (codes "ab") (codes "ab")) 1 0) 1
unfolding Text-discrete
text_runs = refl
