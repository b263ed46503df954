-- ===== src/Design/Parsing/Keyed.antt =====
-- Lemmas on outcomes and on maps with an entry at the end, for what ParseYaml collects.
use eddwise.Base.{
  Text, text_key, Dict, get, get-insert, keys, insert, Distinct, List, [], ◌∷◌, ◌++◌, none, ◌≡◌,
  ◌≢◌, refl, subst, arith,
}
use eddwise.Design.{Struct, struct_name}
use eddwise.Design.Directions.OneWay.{Named}
use eddwise.Design.Merge.{map_of_structs}
use eddwise.Design.Parsing.{Outcome, no_fuel, panicked, failed, done, ◌>>>◌}

pub bind-done :
    {A B : Type 0} (o : Outcome A) (f : A → Outcome B) (b : B)
    → (o >>> f) ≡ done b
    → (a : A) × (o ≡ done a) × (f a ≡ done b)
bind-done no_fuel f b h = cc
bind-done panicked f b h = cc
bind-done (failed e) f b h = cc
bind-done (done a) f b h = (a, refl, h)

pub map_of_structs-append :
    (ss : List Struct) (s : Struct) (m : Dict Text Struct)
    → map_of_structs (ss ++ s ∷ []) m ≡ insert (struct_name s) s (map_of_structs ss m)
unfolding map_of_structs
map_of_structs-append [] s m = refl
map_of_structs-append (t ∷ ss) s m = map_of_structs-append ss s (insert (struct_name t) t m)

pub map_of_structs-Named :
    (ss : List Struct) (m : Dict Text Struct) → Named m → Named (map_of_structs ss m)
unfolding map_of_structs
map_of_structs-Named [] m h = h
map_of_structs-Named (s ∷ ss) m h =
    map_of_structs-Named ss (insert (struct_name s) s m)
      (λ k t e. ground (arith, get-insert (struct_name s) k s m, h k t))

-- Entries at the end of a map.
pub get-last :
    {V : Type 0} (j k : Text) (v : V) (m : Dict Text V)
    → get j m ≡ none
    → k ≢ j
    → get j (m ++ (k, v) ∷ []) ≡ none
unfolding get
get-last j k v [] h other = ground arith
get-last j k v ((i, w) ∷ m) h other = ground (arith, get-last j k v m)

pub Distinct-last :
    {V : Type 0} (k : Text) (v : V) (m : Dict Text V)
    → Distinct m
    → get k m ≡ none
    → Distinct (m ++ (k, v) ∷ [])
unfolding get
Distinct-last k v [] d h = (refl, tt)
Distinct-last k v ((j, w) ∷ m) d h =
    (get-last j k v m d.0 (λ e. ground arith), Distinct-last k v m d.1 (ground arith))

pub get-same_keys :
    {V W : Type 0} (j : Text) (m : Dict Text V) (n : Dict Text W)
    → keys m ≡ keys n
    → get j m ≡ none
    → get j n ≡ none
unfolding get
get-same_keys j [] [] e h = refl
get-same_keys j [] (q ∷ n) e h = cc
get-same_keys j (p ∷ m) [] e h = cc
get-same_keys j ((k, v) ∷ m) ((i, w) ∷ n) e h =
    let same : k ≡ i = cc in let rest = get-same_keys j m n (cc) in ground arith

pub Distinct-same_keys :
    {V W : Type 0} (m : Dict Text V) (n : Dict Text W) → keys m ≡ keys n → Distinct m → Distinct n
Distinct-same_keys [] [] e d = tt
Distinct-same_keys [] (q ∷ n) e d = cc
Distinct-same_keys (p ∷ m) [] e d = cc
Distinct-same_keys ((k, v) ∷ m) ((i, w) ∷ n) e d =
    let same : k ≡ i = cc in
    (
      subst (λ x. get x n ≡ none) same (get-same_keys k m n (cc) d.0),
      Distinct-same_keys m n (cc) d.1,
    )
