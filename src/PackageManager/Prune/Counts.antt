-- ===== src/PackageManager/Prune/Counts.antt =====
-- The table of the uses that `Prune` counts.
use linglong.Prelude.{
  ℕ, suc, ◌≡◌, refl, sym, ◌∙◌, inl, inr, true, false, Bool-cases, ◌==◌, Option, none, some, [], ◌∷◌,
  if◌then◌else◌, keep, All, All-map, arith,
}
use linglong.Package.Reference
use linglong.Package.Reference.{Reference}
use linglong.Package.Reference.RoundTrip.{eq_iff_reference}
use linglong.PackageManager.Prune.{Target, try_emplace, add_use, unused}

-- The count of a reference.
abbrev pub count_of : Reference → Target → Option ℕ
count_of ref [] = none
count_of ref (entry ∷ rest) =
    let later = count_of ref rest in if Reference.eq entry.0 ref then some entry.1 else later

abbrev pub IsUsed : Reference → Target → Type 0
IsUsed ref target = (n : ℕ) × (count_of ref target ≡ some (suc n))

-- No two entries are for the same reference.
abbrev pub AreKeys : Target → Type 0
AreKeys [] = Unit
AreKeys (entry ∷ rest) = All (λ other. Reference.eq entry.0 other.0 ≡ false) rest × AreKeys rest

eq_apart :
    (a b c : Reference)
    → Reference.eq a b ≡ true
    → Reference.eq a c ≡ false
    → Reference.eq c b ≡ false
eq_apart a b c h k = elim (Bool-cases (Reference.eq c b)) [
  | inr apart ↦ apart
  | inl same ↦ cc (
    k,
    (eq_iff_reference a c).1 ((eq_iff_reference a b).0 h ∙ sym ((eq_iff_reference c b).0 same)),
  )
]

eq_refl_reference : (a : Reference) → Reference.eq a a ≡ true
eq_refl_reference a = (eq_iff_reference a a).1 refl

pub add_use-IsUsed : (ref : Reference) (target : Target) → IsUsed ref (add_use ref target)
unfolding add_use
add_use-IsUsed ref [] = (0, rw (eq_refl_reference ref) refl)
add_use-IsUsed ref (entry ∷ rest) = elim (Bool-cases (Reference.eq entry.0 ref)) [
  | inl e ↦ (entry.1, rw (e, add_use) (rw e refl))
  | inr e ↦ let (n, h) = add_use-IsUsed ref rest in (n, rw (e, add_use) (rw e h))
]

-- A use that was counted stays counted.
pub IsUsed-add_use :
    (ref other : Reference) (target : Target)
    → IsUsed ref target
    → IsUsed ref (add_use other target)
unfolding add_use
IsUsed-add_use ref other [] (n, h) = cc h
IsUsed-add_use ref other (entry ∷ rest) (n, h) = elim (Bool-cases (Reference.eq entry.0 other)) [
  | inl e ↦ elim (Bool-cases (Reference.eq entry.0 ref)) [
    | inl e' ↦ (entry.1, rw (e, add_use) (rw e' refl))
    | inr e' ↦ (n, rw (e, add_use) (rw e' (rw e' at h)))
  ]
  | inr e ↦ elim (Bool-cases (Reference.eq entry.0 ref)) [
    | inl e' ↦ (n, rw (e, add_use) (rw e' (rw e' at h)))
    | inr e' ↦
        let (m, k) = IsUsed-add_use ref other rest (n, rw e' at h) in (m, rw (e, add_use) (rw e' k))
  ]
]

pub IsUsed-try_emplace :
    (ref other : Reference) (target : Target)
    → IsUsed ref target
    → IsUsed ref (try_emplace other target)
unfolding try_emplace
IsUsed-try_emplace ref other [] (n, h) = cc h
IsUsed-try_emplace ref other (entry ∷ rest) (n, h) =
    elim (Bool-cases (Reference.eq entry.0 other)) [
      | inl e ↦ (n, rw (e, try_emplace) h)
      | inr e ↦ elim (Bool-cases (Reference.eq entry.0 ref)) [
        | inl e' ↦ (n, rw (e, try_emplace) (rw e' (rw e' at h)))
        | inr e' ↦
            let (m, k) = IsUsed-try_emplace ref other rest (n, rw e' at h) in
            (m, rw (e, try_emplace) (rw e' k))
      ]
    ]

-- A property of the references of a table is one of those of the longer table.
add_use-All :
    (P : Reference → Type 0) (ref : Reference) (target : Target)
    → P ref
    → All (λ entry. P entry.0) target
    → All (λ entry. P entry.0) (add_use ref target)
unfolding add_use
add_use-All P ref [] h k = (h, tt)
add_use-All P ref (entry ∷ rest) h k = elim (Bool-cases (Reference.eq entry.0 ref)) [
  | inl e ↦ rw (e, add_use) k
  | inr e ↦ rw (e, add_use) (k.0, add_use-All P ref rest h k.1)
]

try_emplace-All :
    (P : Reference → ℕ → Type 0) (ref : Reference) (target : Target)
    → P ref 0
    → All (λ entry. P entry.0 entry.1) target
    → All (λ entry. P entry.0 entry.1) (try_emplace ref target)
unfolding try_emplace
try_emplace-All P ref [] h k = (h, tt)
try_emplace-All P ref (entry ∷ rest) h k = elim (Bool-cases (Reference.eq entry.0 ref)) [
  | inl e ↦ rw (e, try_emplace) k
  | inr e ↦ rw (e, try_emplace) (k.0, try_emplace-All P ref rest h k.1)
]

pub AreKeys-add_use :
    (ref : Reference) (target : Target) → AreKeys target → AreKeys (add_use ref target)
unfolding add_use
AreKeys-add_use ref [] d = (tt, tt)
AreKeys-add_use ref (entry ∷ rest) d = elim (Bool-cases (Reference.eq entry.0 ref)) [
  | inl e ↦ rw (e, add_use) d
  | inr e ↦
      rw (e, add_use)
        (
          add_use-All (λ other. Reference.eq entry.0 other ≡ false) ref rest e d.0,
          AreKeys-add_use ref rest d.1,
        )
]

pub AreKeys-try_emplace :
    (ref : Reference) (target : Target) → AreKeys target → AreKeys (try_emplace ref target)
unfolding try_emplace
AreKeys-try_emplace ref [] d = (tt, tt)
AreKeys-try_emplace ref (entry ∷ rest) d = elim (Bool-cases (Reference.eq entry.0 ref)) [
  | inl e ↦ rw (e, try_emplace) d
  | inr e ↦
      rw (e, try_emplace)
        (
          try_emplace-All (λ other _. Reference.eq entry.0 other ≡ false) ref rest e d.0,
          AreKeys-try_emplace ref rest d.1,
        )
]

-- What holds of the references of all entries holds of those of the unused ones.
unused-All :
    (P : Reference → Type 0) (target : Target)
    → All (λ entry. P entry.0) target
    → All P (unused target)
unfolding unused keep
unused-All P [] h = tt
unused-All P (entry ∷ rest) h = elim (Bool-cases (entry.1 == 0)) [
  | inl e ↦ rw (e, keep) (h.0, unused-All P rest h.1)
  | inr e ↦ rw (e, keep) (unused-All P rest h.1)
]

-- A reference with a use is not among the unused ones.
pub unused-IsUsed :
    (ref : Reference) (target : Target)
    → AreKeys target
    → IsUsed ref target
    → All (λ other. Reference.eq other ref ≡ false) (unused target)
unfolding unused keep
unused-IsUsed ref [] d (n, h) = cc h
unused-IsUsed ref (entry ∷ rest) d (n, h) = elim (Bool-cases (Reference.eq entry.0 ref)) [
  | inl e ↦
      let count : entry.1 ≡ suc n = cc (rw e at h) in
      let used : (entry.1 == 0) ≡ false = ground (arith, count) in
      rw (used, keep)
        (unused-All (λ other. Reference.eq other ref ≡ false) rest
          (All-map (λ other k. eq_apart entry.0 ref other.0 e k) rest d.0))
  | inr e ↦ elim (Bool-cases (entry.1 == 0)) [
    | inl z ↦ rw (z, keep) (e, unused-IsUsed ref rest d.1 (n, rw e at h))
    | inr z ↦ rw (z, keep) (unused-IsUsed ref rest d.1 (n, rw e at h))
  ]
]
