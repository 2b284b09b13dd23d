-- ===== src/Package/VersionRange/Contains.antt =====
-- What a range of versions holds.
use linglong.Prelude.{◌≡◌, ◌≢◌, true, false, &&_true, true_&&, Bool-cases, inl, inr}
use linglong.Package.Version
use linglong.Package.Version.{Version, has_tweak, tweak_or_zero}
use linglong.Package.Version.Order.{lt_irrefl, lt_trans, lt→le, le-lt_trans, lt-le_trans, order_gap}
use linglong.Package.VersionRange.{VersionRange, contains}

contains_parts :
    (r : VersionRange) (x : Version)
    → contains r x ≡ true
    → (Version.le r.begin x ≡ true) × (Version.lt x r.end ≡ true)
unfolding contains
contains_parts r x h = &&_true (Version.le r.begin x) (Version.lt x r.end) h

-- A version after one that is in a range and before another that is in it is in the range too.
contains_between :
    (r : VersionRange) (a b x : Version)
    → contains r a ≡ true
    → contains r b ≡ true
    → Version.lt a x ≡ true
    → Version.lt x b ≡ true
    → contains r x ≡ true
unfolding contains
contains_between r a b x ha hb p q =
    let (from, _) = contains_parts r a ha in
    let (_, to) = contains_parts r b hb in
    true_&& (Version.le r.begin x) (Version.lt x r.end)
      (lt→le r.begin x (le-lt_trans r.begin a x from p)) (lt_trans x b r.end q to)

-- A range whose end is not after its begin holds no version.
pub contains_empty :
    (r : VersionRange) (x : Version) → Version.le r.end r.begin ≡ true → contains r x ≡ false
contains_empty r x h = elim (Bool-cases (contains r x)) [
  | inl held ↦
      let (from, to) = contains_parts r x held in
      let below : Version.lt x x ≡ true =
        lt-le_trans x r.begin x (lt-le_trans x r.end r.begin to h) from in
      cc (below, lt_irrefl x)
  | inr out ↦ out
]

-- A range does not hold the version with the numbers of its begin if only one of the two has a
-- tweak, which is 0: `[1.0.0,2.0.0)` does not hold `1.0.0.0`.
contains_gap :
    (r : VersionRange) (x : Version)
    → has_tweak r.begin ≢ has_tweak x
    → r.begin.major ≡ x.major
    → r.begin.minor ≡ x.minor
    → r.begin.patch ≡ x.patch
    → tweak_or_zero r.begin ≡ tweak_or_zero x
    → contains r x ≡ false
unfolding contains
contains_gap r x h p q s t = rw ((order_gap r.begin x h p q s t).3)
