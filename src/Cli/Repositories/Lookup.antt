-- ===== src/Cli/Repositories/Lookup.antt =====
-- cli/cli.cpp: what a changed map of repositories holds.
use linglong.Prelude.{
  ◌≡◌, refl, sym, ◌∙◌, inl, inr, false, Bool-cases, none, some, List, [], ◌∷◌, erase_first,
  update_first, arith,
}
use linglong.Prelude.Text.{Text, text_eq, text_eq_iff, text_eq_refl, text_lt}
use linglong.Repo.Config.{url_of}
use linglong.Cli.Repositories.{emplace}

-- The name has an address.
abbrev pub Has : Text → List (Text × Text) → Type 0
Has name repos = (url : Text) × (url_of name repos ≡ some url)

pub url_of-emplace :
    (name url other : Text) (repos : List (Text × Text))
    → text_eq name other ≡ false
    → url_of other (emplace name url repos) ≡ url_of other repos
unfolding url_of emplace
url_of-emplace name url other [] h = rw (h, url_of) refl
url_of-emplace name url other (entry ∷ rest) h = elim (Bool-cases (text_lt name entry.0)) [
  | inl e ↦ rw (e, emplace) (rw (h, url_of) refl)
  | inr e ↦ rw (e, emplace) (ground (arith, url_of-emplace name url other rest h))
]

pub url_of-emplaced :
    (name url : Text) (repos : List (Text × Text))
    → url_of name repos ≡ none
    → url_of name (emplace name url repos) ≡ some url
unfolding url_of emplace
url_of-emplaced name url [] h = rw (text_eq_refl name, url_of) refl
url_of-emplaced name url (entry ∷ rest) h = elim (Bool-cases (text_eq entry.0 name)) [
  | inl e ↦ cc (rw (e, url_of) at h)
  | inr e ↦ elim (Bool-cases (text_lt name entry.0)) [
    | inl k ↦ rw (k, emplace) (rw (text_eq_refl name, url_of) refl)
    | inr k ↦ rw (k, emplace) (rw (e, url_of) (url_of-emplaced name url rest (rw (e, url_of) at h)))
  ]
]

pub url_of-erase_first :
    (name other : Text) (repos : List (Text × Text))
    → text_eq other name ≡ false
    → url_of other (erase_first (λ entry. text_eq entry.0 name) repos) ≡ url_of other repos
unfolding url_of erase_first
url_of-erase_first name other [] h = refl
url_of-erase_first name other (entry ∷ rest) h = elim (Bool-cases (text_eq entry.0 name)) [
  | inr e ↦ ground (arith, e, url_of-erase_first name other rest h)
  | inl e ↦
      let same = (text_eq_iff entry.0 name).0 e in
      elim (Bool-cases (text_eq entry.0 other)) [
        | inr k ↦ ground (arith, e, k)
        | inl k ↦
            let alike = (text_eq_iff entry.0 other).0 k in
            cc ((text_eq_iff other name).1 (sym alike ∙ same), h)
      ]
]

pub Has-update_first :
    (name url other : Text) (repos : List (Text × Text))
    → Has other repos
    → Has other (update_first (λ entry. text_eq entry.0 name) (λ entry. (entry.0, url)) repos)
unfolding url_of update_first
Has-update_first name url other [] (u, h) = (u, h)
Has-update_first name url other (entry ∷ rest) (u, h) = elim (Bool-cases (text_eq entry.0 name)) [
  | inl e ↦ elim (Bool-cases (text_eq entry.0 other)) [
    | inl k ↦ (url, rw (e, update_first) (rw (k, url_of) refl))
    | inr k ↦ (u, rw (e, update_first) (rw (k, url_of) (rw (k, url_of) at h)))
  ]
  | inr e ↦ elim (Bool-cases (text_eq entry.0 other)) [
    | inl k ↦ (entry.1, rw (e, update_first) (rw (k, url_of) refl))
    | inr k ↦
        let (u', h') = Has-update_first name url other rest (u, rw (k, url_of) at h) in
        (u', rw (e, update_first) (rw (k, url_of) h'))
  ]
]

pub Has-emplace :
    (name url other : Text) (repos : List (Text × Text))
    → url_of name repos ≡ none
    → Has other repos
    → Has other (emplace name url repos)
Has-emplace name url other repos free (u, h) = elim (Bool-cases (text_eq name other)) [
  | inl e ↦ let same = (text_eq_iff name other).0 e in cc (same, free, h)
  | inr e ↦ (u, url_of-emplace name url other repos e ∙ h)
]
