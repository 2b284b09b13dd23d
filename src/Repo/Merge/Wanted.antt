-- ===== src/Repo/Merge/Wanted.antt =====
-- Which groups `mergeModules` merges.
use linglong.Prelude.{
  ◌≡◌, refl, sym, ap, ◌∙◌, inl, inr, Bool, true, false, not, ◌&&◌, Bool-cases, Option, none, some,
  List, [], ◌∷◌, keep, length, ltb, arith,
}
use linglong.Prelude.Text.{Text, codes, text_eq, is_empty}
use linglong.Api.{LayersItem}
use linglong.Repo.Merge.{is_single, binary_commit_from, is_mergeable}

-- The layers that are modules `binary`.
abbrev pub binaries : List LayersItem → List LayersItem
binaries layers = keep (λ l. text_eq l.info.package_info_v2_module (codes "binary")) layers

-- The commit of the last of some layers.
pub last_commit : List LayersItem → Option Text
last_commit [] = none
last_commit (layer ∷ []) = some layer.commit
last_commit (layer ∷ next ∷ rest) = last_commit (next ∷ rest)

-- A commit that is not empty.
abbrev pub has_commit : Option Text → Bool
has_commit none = false
has_commit (some commit) = not (is_empty commit)

-- What makes a group one that is merged: more than one layer, and a last module `binary` with a
-- commit.
abbrev pub is_wanted : List LayersItem → Bool
is_wanted layers = ltb 1 (length layers) && has_commit (last_commit (binaries layers))

abbrev commit_or : Text → Option Text → Text
commit_or commit none = commit
commit_or commit (some found) = found

last_commit-cons :
    (layer : LayersItem) (rest : List LayersItem)
    → last_commit (layer ∷ rest) ≡ some (commit_or layer.commit (last_commit rest))
unfolding last_commit
last_commit-cons layer [] = refl
last_commit-cons layer (next ∷ []) = refl
last_commit-cons layer (next ∷ third ∷ rest) =
    last_commit-cons next (third ∷ rest)
    ∙ ap (λ c. some (commit_or layer.commit c)) (sym (last_commit-cons next (third ∷ rest)))

binary_commit_from-last :
    (commit : Text) (layers : List LayersItem)
    → binary_commit_from commit layers ≡ commit_or commit (last_commit (binaries layers))
unfolding binary_commit_from keep last_commit
binary_commit_from-last commit [] = refl
binary_commit_from-last commit (layer ∷ rest) =
    elim (Bool-cases (text_eq layer.info.package_info_v2_module (codes "binary"))) [
      | inl e ↦
          rw (e, keep)
            (binary_commit_from-last layer.commit rest
              ∙ sym (ap (commit_or commit) (last_commit-cons layer (binaries rest))))
      | inr e ↦ rw (e, keep) (binary_commit_from-last commit rest)
    ]

commit_or-has : (found : Option Text) → not (is_empty (commit_or [] found)) ≡ has_commit found
unfolding is_empty
commit_or-has none = refl
commit_or-has (some commit) = refl

pub is_mergeable-wanted : (layers : List LayersItem) → is_mergeable layers ≡ is_wanted layers
unfolding is_mergeable is_single binary_commit_from length is_empty last_commit keep
is_mergeable-wanted [] = ground arith
is_mergeable-wanted (layer ∷ []) = ground arith
is_mergeable-wanted (layer ∷ next ∷ rest) =
    let layers = layer ∷ next ∷ rest in
    let many : ltb 1 (length layers) ≡ true = ground arith in
    let same =
      ap (λ c. not (is_empty c)) (binary_commit_from-last [] layers)
      ∙ commit_or-has (last_commit (binaries layers)) in
    ap (λ b. not (is_single layers) && b) same
    ∙ ap (λ b. b && has_commit (last_commit (binaries layers))) (sym many)
