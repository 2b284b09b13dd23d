-- ===== src/Package/FuzzyReference.antt =====
-- package/fuzzy_reference.{h,cpp}: references that may leave the channel, the version and the
-- architecture open.
pub mod RoundTrip
pub mod Accepts
use linglong.Prelude.{ℕ, Bool, true, false, ◌||◌, Option, none, some, [], ◌∷◌, ◌++◌, if◌then◌else◌}
use linglong.Prelude.Text.{Text, codes, text_eq, is_empty}
use linglong.Prelude.Result.{Result, ok, err, ◌>>=◌, or_fail}
use linglong.Package.Qt.{Qt}
use linglong.Package.Pattern.{expect, at_end, span_until}
use linglong.Package.Version
use linglong.Package.Version.{Version}
use linglong.Package.Architecture
use linglong.Package.Architecture.{Architecture}

pub record FuzzyReference : Type 0 where
  pub channel : Option Text
  pub id : Text
  pub version : Option Version
  pub arch : Option Architecture

-- The named groups of a match. A group that took no part is null, and read as an empty text.
pub record Groups : Type 0 where
  pub channel : Text
  pub id : Text
  pub version : Text
  pub architecture : Text

-- `(?:\/(?<version>[^\/]*)(?:\/(?<architecture>[^\/]*))?)?$`
unfoldable pub match_rest : Text → Option (Text × Text)
match_rest s = elim (expect b'/' s) [
  | none ↦ if at_end s then some ([], []) else none
  | some r ↦
      let (version, r') = span_until b'/' r in
      elim (expect b'/' r') [
        | none ↦ if at_end r' then some (version, []) else none
        | some q ↦
            let (architecture, q') = span_until b'/' q in
            if at_end q' then some (version, architecture) else none
      ]
]

-- `(?<id>[^\/]*)` and what follows it, behind a channel
unfoldable pub match_id : Text → Text → Option Groups
match_id channel s =
    let (id, r) = span_until b'/' s in
    elim (match_rest r) [
      | none ↦ none
      | some (version, architecture) ↦
          some
            (record { channel = channel; id = id; version = version; architecture = architecture })
    ]

-- `^(?:(?<channel>[^:]*):)?` and the rest: with the group where that matches, else without it
unfoldable pub match_fuzzy : Text → Option Groups
match_fuzzy s =
    let (channel, r) = span_until b':' s in
    let without = match_id [] s in
    elim (expect b':' r) [
      | none ↦ without
      | some r' ↦ elim (match_id channel r') [ none ↦ without | some g ↦ some g ]
    ]

-- An empty text or `unknown` leaves a part open.
unfoldable pub is_open : Text → Bool
is_open s = is_empty s || text_eq s (codes "unknown")

unfoldable pub parse_channel : Text → Option Text
unfolding is_open
parse_channel s = if is_open s then none else some s

unfoldable pub parse_version : Qt → Text → Result (Option Version)
unfolding is_open
parse_version qt s = if is_open s then ok none else do v ← Version.parse qt s; ok (some v)

unfoldable pub parse_architecture : Text → Result (Option Architecture)
unfolding is_open
parse_architecture s = if is_open s then ok none else do a ← Architecture.parse s; ok (some a)

-- The checks of `FuzzyReference::FuzzyReference`; `FuzzyReference::create` turns what it throws into
-- an error.
unfoldable pub create :
    Option Text → Text → Option Version → Option Architecture → Result FuzzyReference
create channel id version arch =
    let empty_channel : Bool = elim channel [ none ↦ false | some c ↦ is_empty c ] in
    if empty_channel
    then err "empty channel"
    else if is_empty id
    then err "empty id"
    else ok (record { channel = channel; id = id; version = version; arch = arch })

unfoldable pub parse : Qt → Text → Result FuzzyReference
parse qt raw = do
  g ← or_fail (match_fuzzy raw) "regexp mismatched."
  version ← parse_version qt g.version
  arch ← parse_architecture g.architecture
  create (parse_channel g.channel) g.id version arch

-- `channel.value_or("unknown")` and the like
unfoldable pub text_or_unknown : Option Text → Text
text_or_unknown none = codes "unknown"
text_or_unknown (some s) = s

unfoldable pub version_text : Qt → Option Version → Text
version_text qt none = codes "unknown"
version_text qt (some v) = Version.to_string qt v

unfoldable pub arch_text : Option Architecture → Text
arch_text none = codes "unknown"
arch_text (some a) = Architecture.to_string a

unfoldable pub to_string : Qt → FuzzyReference → Text
to_string qt f =
    text_or_unknown f.channel
    ++ (b':' ∷ (f.id ++ (b'/' ∷ (version_text qt f.version ++ (b'/' ∷ arch_text f.arch)))))
