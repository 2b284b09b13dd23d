-- ===== src/Package/Version/Order.antt =====
-- The comparison operators of a version: what they are on versions of the same number of parts, and
-- where the third kind of pair, one version with a tweak and one without, leaves them.
use linglong.Prelude.{◌≡◌, ◌≢◌, ◌⊎◌, inl, inr, Bool, true, false, not, ◌||◌, Bool-cases, arith}
use linglong.Package.Version.{Version, has_tweak, tweak_or_zero, eq, ne, lt, gt, le, ge}

-- Equal versions are the same version.
pub eq_sound : (a b : Version) → eq a b ≡ true → a ≡ b
unfolding eq
eq_sound a b h = ground arith

pub eq_refl : (a : Version) → eq a a ≡ true
unfolding eq
eq_refl a = ground arith

pub lt_irrefl : (a : Version) → lt a a ≡ false
unfolding lt
lt_irrefl a = ground arith

pub lt_trans : (a b c : Version) → lt a b ≡ true → lt b c ≡ true → lt a c ≡ true
unfolding lt
lt_trans a b c h k = ground arith

-- Of two versions that both have a tweak, or both have none, exactly one of `<`, `==` and `>`
-- holds.
pub lt_trichotomy :
    (a b : Version)
    → has_tweak a ≡ has_tweak b
    → ((lt a b ≡ true) × (eq a b ≡ false) × (gt a b ≡ false))
      ⊎ ((lt a b ≡ false) × (eq a b ≡ true) × (gt a b ≡ false))
      ⊎ ((lt a b ≡ false) × (eq a b ≡ false) × (gt a b ≡ true))
unfolding eq gt
lt_trichotomy a b h = ground arith

-- Two versions that have the same numbers, of which one has a tweak of 0 and the other none, are
-- not equal, and neither is before or after the other.
pub order_gap :
    (a b : Version)
    → has_tweak a ≢ has_tweak b
    → a.major ≡ b.major
    → a.minor ≡ b.minor
    → a.patch ≡ b.patch
    → tweak_or_zero a ≡ tweak_or_zero b
    → (ne a b ≡ true) × (lt a b ≡ false) × (gt a b ≡ false) × (le a b ≡ false) × (ge a b ≡ false)
unfolding ne gt le ge
order_gap a b h p q r s = ground arith

-- `<=` and `>=` hold exactly where the other strict comparison fails, if the same parts are there.
pub le-not-gt :
    (a b : Version) → has_tweak a ≡ has_tweak b → (le a b ≡ not (gt a b)) × (ge a b ≡ not (lt a b))
unfolding gt le ge
le-not-gt a b h = ground arith

pub lt→le : (a b : Version) → lt a b ≡ true → le a b ≡ true
unfolding le
lt→le a b h = rw (h, le) (or_true (eq a b))
  where
    or_true : (x : Bool) → (x || true) ≡ true
    or_true x = ground arith

pub le_cases : (a b : Version) → le a b ≡ true → (a ≡ b) ⊎ (lt a b ≡ true)
le_cases a b h = elim (Bool-cases (eq a b)) [
  | inl same ↦ inl (eq_sound a b same)
  | inr other ↦ inr (second other h)
]
  where
    second : eq a b ≡ false → le a b ≡ true → lt a b ≡ true
    second e = unfold le in λ k. rw e at k

pub le-lt_trans : (a b c : Version) → le a b ≡ true → lt b c ≡ true → lt a c ≡ true
le-lt_trans a b c h k = elim (le_cases a b h) [
  | inl same ↦ rw same k
  | inr less ↦ lt_trans a b c less k
]

pub lt-le_trans : (a b c : Version) → lt a b ≡ true → le b c ≡ true → lt a c ≡ true
lt-le_trans a b c h k = elim (le_cases b c k) [
  | inl same ↦ rw (← same) h
  | inr less ↦ lt_trans a b c h less
]

-- What is not before a version that is not before another is not before that.
pub not_lt_trans : (a b c : Version) → lt a b ≡ false → lt b c ≡ false → lt a c ≡ false
unfolding lt
not_lt_trans a b c h k = ground arith

pub lt_asymm : (a b : Version) → lt a b ≡ true → lt b a ≡ false
unfolding lt
lt_asymm a b h = ground arith

pub ge→not_lt : (a b : Version) → ge a b ≡ true → lt a b ≡ false
ge→not_lt a b h = elim (Bool-cases (eq a b)) [
  | inl same ↦ rw (eq_sound a b same) (lt_irrefl b)
  | inr other ↦ lt_asymm b a (second other h)
]
  where
    second : eq a b ≡ false → ge a b ≡ true → lt b a ≡ true
    second e = unfold ge gt in λ k. rw e at k

pub not_ge→not_lt : (a b : Version) → ge a b ≡ false → lt b a ≡ false
not_ge→not_lt a b h = elim (Bool-cases (lt b a)) [ inr e ↦ e | inl e ↦ cc (h, yes_ge e) ]
  where
    or_true : (x : Bool) → (x || true) ≡ true
    or_true x = ground arith

    yes_ge : lt b a ≡ true → ge a b ≡ true
    yes_ge e = unfold ge gt in rw e (or_true (eq a b))
