-- ===== src/Codegen/Routing/Labels.antt =====
-- Labels of entries.
use eddwise.Base.{
  Text, text_key, Dict, get, At-get, get-At, At, here, there, Distinct, [], ◌∷◌, map, some, ◌≡◌,
  ◌↔◌, inl, inr, refl, Option-cases,
}
use eddwise.Design.{Struct, struct_name}
use eddwise.Design.Names.{struct_protocol_alias}
use eddwise.Codegen.Routing.{labelled}

-- A label stands for an entry.
pub At-labelled :
    (a ev : Text) (es : Dict Text Struct)
    → At (a, ev) (map labelled es) ↔ ((s : Struct) × At (ev, s) es × (struct_protocol_alias s ≡ a))
At-labelled a ev [] = (λ m. elim m [ ], λ (s, m, e). elim m [ ])
At-labelled a ev ((k, t) ∷ es) = (
  λ m. elim m [
    | here p ↦ (t, here (cc), cc)
    | there q ↦ let (s, r, e) = (At-labelled a ev es).0 q in (s, there r, e)
  ],
  λ (s, m, e). elim m [ here p ↦ here (cc) | there q ↦ there ((At-labelled a ev es).1 (s, q, e)) ],
)

-- Where each entry is under the name of its struct, and each struct is the only one with its protocol
-- alias, the labels are distinct.
pub labelled-Distinct :
    (structs : Dict Text Struct) (es : Dict Text Struct)
    → Distinct es
    → ((ev : Text) (s : Struct)
        → At (ev, s) es
        → (struct_name s ≡ ev) × (get (struct_protocol_alias s) structs ≡ some s))
    → Distinct (map labelled es)
labelled-Distinct structs [] d h = tt
labelled-Distinct structs ((ev, s) ∷ es) d h = (
  elim (Option-cases (get (struct_protocol_alias s) (map labelled es))) [
    | inl e ↦ e
    | inr (other, e) ↦
        let (t, m, same) =
          (At-labelled (struct_protocol_alias s) other es).0
            (At-get (struct_protocol_alias s) other (map labelled es) e) in
        let first = h ev s (here refl) in
        let second = h other t (there m) in
        let again : get other es ≡ some t = get-At other t es d.1 m in
        let equal : s ≡ t = cc in let key : other ≡ ev = cc in absurd (cc)
  ],
  labelled-Distinct structs es d.1 (λ k t m. h k t (there m)),
)
