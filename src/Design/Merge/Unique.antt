-- ===== src/Design/Merge/Unique.antt =====
-- When two designs merge, and what the cached map of structs lets through.
use eddwise.Base.{
  Text, Text-discrete, text_key, Dict, get, List, [], ◌∷◌, ◌++◌, append-nil, append_assoc, Option,
  none, some, ◌≡◌, ◌↔◌, refl, sym, ap, ◌∙◌, subst, arith, if_pos, All, Option-cases, inl, inr,
}
use eddwise.Design.{Struct, DesignChannel, struct_name}
use eddwise.Design.Merge.{
  Design, MergeError, struct_name, structs_map, channels_map, merge_structs, merge_channels,
  after_structs, merge, merge_all,
}

-- No struct of the list stands in the map.
abbrev pub NewStructs : Dict Text Struct → List Struct → Type 0
NewStructs m = All (λ s. get (struct_name s) m ≡ none)

abbrev pub NewChannels : Dict Text DesignChannel → List DesignChannel → Type 0
NewChannels m = All (λ c. get c.name m ≡ none)

merge_structs-new :
    (m : Dict Text Struct) (ss : List Struct) (d : Design)
    → NewStructs m ss
    → merge_structs m ss d ≡ (record d { structs = d.structs ++ ss }, none)
unfolding merge_structs
merge_structs-new m [] d h = rw (append-nil d.structs) refl
merge_structs-new m (s ∷ ss) d h =
    rw (h.0, merge_structs)
      (merge_structs-new m ss (record d { structs = d.structs ++ s ∷ [] }) h.1
        ∙ ap (λ x. (record d { structs = x }, none)) (append_assoc d.structs (s ∷ []) ss))

merge_structs-old :
    (m : Dict Text Struct) (ss : List Struct) (d : Design)
    → (merge_structs m ss d).1 ≡ none
    → NewStructs m ss
unfolding merge_structs
merge_structs-old m [] d h = tt
merge_structs-old m (s ∷ ss) d h = elim (Option-cases (get (struct_name s) m)) [
  | inl e ↦ (e, merge_structs-old m ss (record d { structs = d.structs ++ s ∷ [] }) (ground arith))
  | inr (old, e) ↦ absurd (ground arith)
]

merge_channels-new :
    (m : Dict Text DesignChannel) (cs : List DesignChannel) (d : Design)
    → NewChannels m cs
    → merge_channels m cs d ≡ (record d { channels = d.channels ++ cs }, none)
unfolding merge_channels
merge_channels-new m [] d h = rw (append-nil d.channels) refl
merge_channels-new m (c ∷ cs) d h =
    rw (h.0, merge_channels)
      (merge_channels-new m cs (record d { channels = d.channels ++ c ∷ [] }) h.1
        ∙ ap (λ x. (record d { channels = x }, none)) (append_assoc d.channels (c ∷ []) cs))

merge_channels-old :
    (m : Dict Text DesignChannel) (cs : List DesignChannel) (d : Design)
    → (merge_channels m cs d).1 ≡ none
    → NewChannels m cs
unfolding merge_channels
merge_channels-old m [] d h = tt
merge_channels-old m (c ∷ cs) d h = elim (Option-cases (get c.name m)) [
  | inl e ↦
      (e, merge_channels-old m cs (record d { channels = d.channels ++ c ∷ [] }) (ground arith))
  | inr (old, e) ↦ absurd (ground arith)
]

-- The design after StructsMap, which holds the map that it gave.
cached : Design → Design
cached d = record d { struct_map = some (structs_map d).1 }

structs_map-cached : (d : Design) → (structs_map d).0 ≡ cached d
unfolding structs_map cached
structs_map-cached d = ground arith

-- The designs that Merge accepts.
abbrev pub Mergeable : Design → Design → Type 0
Mergeable d d2 =
    (d.name ≡ d2.name)
    × NewStructs (structs_map d).1 d2.structs
    × NewChannels (channels_map d) d2.channels

abbrev pub joined : Design → Design → Design
joined d d2 = record d {
  channels = d.channels ++ d2.channels;
  structs = d.structs ++ d2.structs;
  struct_map = some (structs_map d).1;
}

merge-joined : (d d2 : Design) → Mergeable d d2 → merge d d2 ≡ (joined d d2, none)
unfolding merge after_structs cached channels_map
merge-joined d d2 h =
    if_pos (Text-discrete d.name d2.name) h.0 _ _
    ∙ ap (after_structs d2.channels) (
        ap (merge_structs (structs_map d).1 d2.structs) (structs_map-cached d)
        ∙ merge_structs-new (structs_map d).1 d2.structs (cached d) h.1)
    ∙ merge_channels-new (channels_map d) d2.channels
        (record (cached d) { structs = d.structs ++ d2.structs }) h.2

after_structs-none :
    (cs : List DesignChannel) (r : Design × Option MergeError)
    → (after_structs cs r).1 ≡ none
    → (r.1 ≡ none) × ((merge_channels (channels_map r.0) cs r.0).1 ≡ none)
unfolding after_structs
after_structs-none cs (d, some e) h = cc
after_structs-none cs (d, none) h = (refl, h)

merge_structs-channels :
    (m : Dict Text Struct) (ss : List Struct) (d : Design)
    → (merge_structs m ss d).1 ≡ none
    → channels_map (merge_structs m ss d).0 ≡ channels_map d
unfolding channels_map
merge_structs-channels m ss d h = rw (merge_structs-new m ss d (merge_structs-old m ss d h)) refl

merge-Mergeable : (d d2 : Design) → (merge d d2).1 ≡ none → Mergeable d d2
unfolding merge channels_map cached
merge-Mergeable d d2 h = elim (Text-discrete d.name d2.name) [
  | no p ↦ absurd (ground arith)
  | yes p ↦
      let m : Dict Text Struct = (structs_map d).1 in
      let r : Design × Option MergeError = merge_structs m d2.structs (structs_map d).0 in
      let (fine, then_fine) = after_structs-none d2.channels r (
        sym (
          ap (λ (x : Design × Option MergeError). x.1)
            (if_pos (Text-discrete d.name d2.name) p _ _))
        ∙ h) in
      let listed = merge_channels-old (channels_map r.0) d2.channels r.0 then_fine in
      let same =
        merge_structs-channels m d2.structs (structs_map d).0 fine
        ∙ ap channels_map (structs_map-cached d) in
      (
        p,
        merge_structs-old m d2.structs (structs_map d).0 fine,
        subst (λ x. NewChannels x d2.channels) same listed,
      )
]

-- Merge accepts a design exactly if it has the same namespace and neither a struct of the cached map
-- nor a channel again, and then appends its structs and its channels and leaves the cache as it is.
pub merge_iff :
    (d d2 : Design)
    → (((merge d d2).1 ≡ none) ↔ Mergeable d d2)
      × (((merge d d2).1 ≡ none) ↔ (merge d d2 ≡ (joined d d2, none)))
merge_iff d d2 = (
  (merge-Mergeable d d2, λ h. ap (λ r. r.1) (merge-joined d d2 h)),
  (λ h. merge-joined d d2 (merge-Mergeable d d2 h), λ e. ap (λ r. r.1) e),
)

merge_all-step :
    (d d' d2 : Design) (ds : List Design)
    → merge d d2 ≡ (d', none)
    → merge_all d (d2 ∷ ds) ≡ merge_all d' ds
unfolding merge_all
merge_all-step d d' d2 ds e =
    ap
      (λ (r : Design × Option MergeError). elim r.1 [
        | none ↦ merge_all r.0 ds
        | some x ↦ (r.0, some x)
      ])
      e

-- After a merge a design with no channels is accepted again as often as one likes, so that a struct
-- which two of the later files declare stands twice: the cached map still lists the first file only.
pub merge_all-doubled :
    (d d2 : Design)
    → d2.channels ≡ []
    → Mergeable d d2
    → ((merge_all d (d2 ∷ d2 ∷ [])).1 ≡ none)
      × ((merge_all d (d2 ∷ d2 ∷ [])).0.structs ≡ d.structs ++ d2.structs ++ d2.structs)
unfolding structs_map merge_all
merge_all-doubled d d2 empty h =
    let again : Mergeable (joined d d2) d2 = (h.0, h.1, rw empty tt) in
    let twice =
      merge_all-step d (joined d d2) d2 (d2 ∷ []) (merge-joined d d2 h)
      ∙ merge_all-step (joined d d2) (joined (joined d d2) d2) d2 []
          (merge-joined (joined d d2) d2 again) in
    (ap (λ x. x.1) twice, ap (λ x. x.0.structs) twice)
