-- ===== src/Repo/Merge/Groups.antt =====
-- How `mergeModules` groups the layers.
use linglong.Prelude.{
  ◌≡◌, refl, sym, ap, ◌∙◌, inl, inr, true, false, Bool-cases, List, [], ◌∷◌, ◌++◌, keep, All,
  append_assoc, append-nil, if◌then◌else◌,
}
use linglong.Prelude.Text.{
  Text, codes, text_eq, text_eq_iff, text_lt, text_lt_trans, text_lt_total, text_lt_irrefl,
}
use linglong.Api.{LayersItem}
use linglong.Repo.Cache.{front}
use linglong.Repo.Merge.{Groups, group_key, push_group, group_layers}

-- What the layers of a group agree in: the id, the version and the architecture.
abbrev pub label : LayersItem → Text
label l = l.info.id ++ (codes "/" ++ (l.info.version ++ (codes "/" ++ front l.info.arch)))

-- The layers under a key.
pub members : Text → Groups → List LayersItem
members key [] = []
members key ((k, layers) ∷ rest) =
    let later = members key rest in if text_eq k key then layers else later

-- The keys ascend, so that no two are the same.
abbrev pub IsAscending : Groups → Type 0
IsAscending [] = Unit
IsAscending ((k, layers) ∷ rest) = All (λ g. text_lt k g.0 ≡ true) rest × IsAscending rest

members-below :
    (key : Text) (groups : Groups)
    → All (λ g. text_lt key g.0 ≡ true) groups
    → members key groups ≡ []
unfolding members
members-below key [] h = refl
members-below key ((k, layers) ∷ rest) (h, more) = elim (Bool-cases (text_eq k key)) [
  | inl e ↦ let same = (text_eq_iff k key).0 e in cc (same, h, text_lt_irrefl key)
  | inr e ↦ rw (e, members) (members-below key rest more)
]

below_trans :
    (key k : Text) (groups : Groups)
    → text_lt key k ≡ true
    → All (λ g. text_lt k g.0 ≡ true) groups
    → All (λ g. text_lt key g.0 ≡ true) groups
below_trans key k [] h all = tt
below_trans key k (g ∷ rest) h (first, all) =
    (text_lt_trans key k g.0 h first, below_trans key k rest h all)

push_group-above :
    (k key : Text) (layer : LayersItem) (groups : Groups)
    → text_lt k key ≡ true
    → All (λ g. text_lt k g.0 ≡ true) groups
    → All (λ g. text_lt k g.0 ≡ true) (push_group key layer groups)
unfolding push_group
push_group-above k key layer [] h all = (h, tt)
push_group-above k key layer ((k', layers) ∷ rest) h (first, all) =
    elim (Bool-cases (text_eq k' key)) [
      | inl e ↦ rw (e, push_group) (first, all)
      | inr e ↦ elim (Bool-cases (text_lt key k')) [
        | inl l ↦ rw (e, l, push_group) (h, (first, all))
        | inr l ↦ rw (e, l, push_group) (first, push_group-above k key layer rest h all)
      ]
    ]

push_group-IsAscending :
    (key : Text) (layer : LayersItem) (groups : Groups)
    → IsAscending groups
    → IsAscending (push_group key layer groups)
unfolding push_group
push_group-IsAscending key layer [] h = (tt, tt)
push_group-IsAscending key layer ((k, layers) ∷ rest) (first, more) =
    elim (Bool-cases (text_eq k key)) [
      | inl e ↦ rw (e, push_group) (first, more)
      | inr e ↦ elim (Bool-cases (text_lt key k)) [
        | inl l ↦ rw (e, l, push_group) ((l, below_trans key k rest l first), (first, more))
        | inr l ↦
            let after : text_lt k key ≡ true = later k key e l in
            rw (e, l, push_group)
              (
                push_group-above k key layer rest after first,
                push_group-IsAscending key layer rest more,
              )
      ]
    ]
  where
    later : (k key : Text) → text_eq k key ≡ false → text_lt key k ≡ false → text_lt k key ≡ true
    later k key apart l = elim (Bool-cases (text_lt k key)) [
      | inl e ↦ e
      | inr e ↦ cc ((text_eq_iff k key).1 (text_lt_total k key e l), apart)
    ]

-- The layer alone if it has the key.
abbrev one_of : Text → Text → LayersItem → List LayersItem
one_of key k layer = if text_eq key k then layer ∷ [] else []

-- What is under a key is what was there, and the layer if it is its key.
apart_from : (a b c : Text) → text_eq a b ≡ false → text_eq a c ≡ true → text_eq b c ≡ false
apart_from a b c apart same = elim (Bool-cases (text_eq b c)) [
  | inr e ↦ e
  | inl e ↦
      let path = (text_eq_iff a c).0 same ∙ sym ((text_eq_iff b c).0 e) in
      cc ((text_eq_iff a b).1 path, apart)
]

members-push_group :
    (key k : Text) (layer : LayersItem) (groups : Groups)
    → IsAscending groups
    → members k (push_group key layer groups) ≡ members k groups ++ one_of key k layer
unfolding members push_group
members-push_group key k layer [] h = elim (Bool-cases (text_eq key k)) [
  | inl e ↦ rw (e, members) refl
  | inr e ↦ rw (e, members) refl
]
members-push_group key k layer ((k', layers) ∷ rest) (first, more) =
    elim (Bool-cases (text_eq k' key)) [
      | inl e ↦ elim (Bool-cases (text_eq k' k)) [
        | inl f ↦
            let same = sym ((text_eq_iff k' key).0 e) ∙ (text_eq_iff k' k).0 f in
            rw (e, f, (text_eq_iff key k).1 same) refl
        | inr f ↦
            let other = ap (λ t. text_eq t k) (sym ((text_eq_iff k' key).0 e)) ∙ f in
            rw (e, f, other) (sym (append-nil (members k rest)))
      ]
      | inr e ↦ elim (Bool-cases (text_lt key k')) [
        | inl l ↦ elim (Bool-cases (text_eq key k)) [
          | inl f ↦
              let path = (text_eq_iff key k).0 f in
              let below = ap (λ t. text_lt t k') (sym path) ∙ l in
              let other = ap (text_eq k') (sym path) ∙ e in
              let nothing = members-below k rest (below_trans k k' rest below first) in
              rw (e, l, f, other, nothing) refl
          | inr f ↦ rw (e, l, f) (sym (append-nil (members k ((k', layers) ∷ rest))))
        ]
        | inr l ↦ elim (Bool-cases (text_eq k' k)) [
          | inl g ↦ rw (e, l, g, apart_from k' key k e g) (sym (append-nil layers))
          | inr g ↦ rw (e, l, g) (members-push_group key k layer rest more)
        ]
      ]
    ]

-- The layers with a label.
abbrev pub labelled : Text → List LayersItem → List LayersItem
labelled key layers = keep (λ l. text_eq (label l) key) layers

labelled-cons :
    (key : Text) (layer : LayersItem) (rest : List LayersItem)
    → one_of (label layer) key layer ++ labelled key rest ≡ labelled key (layer ∷ rest)
unfolding keep
labelled-cons key layer rest = elim (Bool-cases (text_eq (label layer) key)) [
  | inl e ↦ rw (e, keep) refl
  | inr e ↦ rw (e, keep) refl
]

-- The groups of some layers, after those that are there.
group_layers-members :
    (layers : List LayersItem) (groups : Groups)
    → IsAscending groups
    → IsAscending (group_layers layers groups)
      × ((key : Text)
          → members key (group_layers layers groups) ≡ members key groups ++ labelled key layers)
unfolding group_layers group_key keep
group_layers-members [] groups ascending = (ascending, λ key. sym (append-nil (members key groups)))
group_layers-members (layer ∷ rest) groups ascending =
    let pushed = push_group (label layer) layer groups in
    let (all, later) =
      group_layers-members rest pushed
        (push_group-IsAscending (label layer) layer groups ascending) in
    (
      all,
      λ key.
          later key
          ∙ ap (λ l. l ++ labelled key rest)
              (members-push_group (label layer) key layer groups ascending)
          ∙ append_assoc (members key groups) (one_of (label layer) key layer) (labelled key rest)
          ∙ ap (λ l. members key groups ++ l) (labelled-cons key layer rest),
    )

-- The groups of some layers: the keys ascend, and under each key are the layers with that label, in
-- their order.
abbrev pub IsGrouping : List LayersItem → Groups → Type 0
IsGrouping layers groups =
    IsAscending groups × ((key : Text) → members key groups ≡ labelled key layers)

pub group_layers-IsGrouping :
    (layers : List LayersItem) → IsGrouping layers (group_layers layers [])
unfolding members
group_layers-IsGrouping layers = group_layers-members layers [] tt
