-- ===== src/Package/FuzzyReference/Accepts.antt =====
-- What `FuzzyReference::parse` accepts.
use linglong.Prelude.{
  ◌≡◌, sym, ◌⊎◌, false, Bool-cases, inl, inr, Option, none, some, Option-cases, [], arith,
}
use mathlib.Core.Path.{subst}
use linglong.Prelude.Text.{Text, Lacks, is_empty, ne_of_is_empty}
use linglong.Prelude.Result.{ok, >>=-eq-ok, or_fail-bind}
use linglong.Package.Qt.{Qt}
use linglong.Package.Pattern.{span_until, span_until-Lacks, expect}
use linglong.Package.Version.{Version}
use linglong.Package.Version.Parse.{parse_parts}
use linglong.Package.Architecture.{Architecture, parse-sound_arch}
use linglong.Package.FuzzyReference.{
  FuzzyReference, Groups, match_id, match_fuzzy, is_open, parse_channel, parse_version,
  parse_architecture, create, parse, to_string,
}
use linglong.Package.FuzzyReference.RoundTrip.{
  ChannelFits, VersionFits, ArchFits, IsWellFormed, parse-to_string_fuzzy,
}

-- The channel that a match finds holds no colon, and the id no slash.
abbrev GroupsFit : Groups → Type 0
GroupsFit g = Lacks b':' g.channel × Lacks b'/' g.id

match_id_groups :
    (c s : Text) (g : Groups)
    → match_id c s ≡ some g
    → (g.channel ≡ c) × (g.id ≡ (span_until b'/' s).0)
unfolding match_id
match_id_groups c s g h = ground arith

match_id-GroupsFit : (c s : Text) (g : Groups) → Lacks b':' c → match_id c s ≡ some g → GroupsFit g
match_id-GroupsFit c s g l h =
    let (ec, ei) = match_id_groups c s g h in
    (subst (Lacks b':') (sym ec) l, subst (Lacks b'/') (sym ei) (span_until-Lacks b'/' s))

match_fuzzy_cases :
    (s : Text) (g : Groups)
    → match_fuzzy s ≡ some g
    → (match_id [] s ≡ some g) ⊎ ((r : Text) × (match_id (span_until b':' s).0 r ≡ some g))
unfolding match_fuzzy
match_fuzzy_cases s g h = elim (Option-cases (expect b':' (span_until b':' s).1)) [
  | inl e ↦ inl (rw (e, match_fuzzy) at h)
  | inr (r, e) ↦ elim (Option-cases (match_id (span_until b':' s).0 r)) [
    | inl e' ↦ inl (ground arith)
    | inr (g', e') ↦ inr (r, ground arith)
  ]
]

match_fuzzy-GroupsFit : (s : Text) (g : Groups) → match_fuzzy s ≡ some g → GroupsFit g
match_fuzzy-GroupsFit s g h = elim (match_fuzzy_cases s g h) [
  | inl e ↦ match_id-GroupsFit [] s g tt e
  | inr (r, e) ↦ match_id-GroupsFit (span_until b':' s).0 r g (span_until-Lacks b':' s) e
]

parse_channel-ChannelFits : (s : Text) → Lacks b':' s → ChannelFits (parse_channel s)
unfolding parse_channel
parse_channel-ChannelFits s l = elim (Bool-cases (is_open s)) [
  | inl e ↦ rw (e, parse_channel) tt
  | inr e ↦ rw (e, parse_channel) (e, l)
]

parse_version-VersionFits :
    (qt : Qt) (s : Text) (v : Option Version) → parse_version qt s ≡ ok v → VersionFits v
unfolding parse_version
parse_version-VersionFits qt s none h = tt
parse_version-VersionFits qt s (some v) h = (parse_parts qt s v (ground arith)).0

parse_architecture-ArchFits :
    (s : Text) (a : Option Architecture) → parse_architecture s ≡ ok a → ArchFits a
unfolding parse_architecture
parse_architecture-ArchFits s none h = tt
parse_architecture-ArchFits s (some a) h = (parse-sound_arch s a (ground arith)).0

create_parts :
    (c : Option Text) (i : Text) (v : Option Version) (a : Option Architecture) (f : FuzzyReference)
    → create c i v a ≡ ok f
    → (is_empty i ≡ false) × (record { channel = c; id = i; version = v; arch = a } ≡ f)
unfolding create
create_parts c i v a f h = ground arith

parse_well_formed :
    (qt : Qt) (raw : Text) (f : FuzzyReference) → parse qt raw ≡ ok f → IsWellFormed f
unfolding parse
parse_well_formed qt raw f h =
    let (g, e, k) = or_fail-bind (match_fuzzy raw) _ _ h in
    let (v, ev, kv) = >>=-eq-ok (parse_version qt g.version) _ k in
    let (a, ea, ka) = >>=-eq-ok (parse_architecture g.architecture) _ kv in
    let (full, made) = create_parts (parse_channel g.channel) g.id v a f ka in
    let (lc, li) = match_fuzzy-GroupsFit raw g e in
    subst IsWellFormed made (record {
      channel = parse_channel-ChannelFits g.channel lc;
      id_some = ne_of_is_empty g.id full;
      id_whole = li;
      version = parse_version-VersionFits qt g.version v ev;
      arch = parse_architecture-ArchFits g.architecture a ea;
    })

-- Every text that is accepted gives a well formed fuzzy reference, whose id and whose given parts
-- its text can hold, and it is read back from its own text.
parse-IsWellFormed :
    (qt : Qt) (raw : Text) (f : FuzzyReference)
    → parse qt raw ≡ ok f
    → IsWellFormed f × (parse qt (to_string qt f) ≡ ok f)
parse-IsWellFormed qt raw f h =
    let w = parse_well_formed qt raw f h in (w, parse-to_string_fuzzy qt f w)
