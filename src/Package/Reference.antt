-- ===== src/Package/Reference.antt =====
-- package/reference.{h,cpp}: references to one layer, by channel, id, version and architecture.
-- Where the code has undefined behaviour, or an exception leaves a `noexcept` function, the model
-- gives `none`.
pub mod RoundTrip
pub mod Accepts
use linglong.Prelude.{Bool, not, ◌&&◌, ◌||◌, Option, none, some, List, [], ◌∷◌, ◌++◌, if◌then◌else◌}
use linglong.Prelude.Text.{Text, codes, text_eq, is_empty}
use linglong.Prelude.Result.{Result, ok, err, ◌>>=◌, or_fail}
use linglong.Prelude.Partial
use linglong.Api.{PackageInfoV2}
use linglong.Package.Qt.{Qt}
use linglong.Package.Pattern.{expect, span_some, search}
use linglong.Package.Version
use linglong.Package.Version.{Version, has_tweak}
use linglong.Package.Architecture
use linglong.Package.Architecture.{Architecture, same}

pub record Reference : Type 0 where
  pub channel : Text
  pub id : Text
  pub version : Version
  pub arch : Architecture

-- The named groups of a match.
pub record Groups : Type 0 where
  pub channel : Text
  pub id : Text
  pub version : Text
  pub architecture : Text

-- `(?<channel>[^:]+):(?<id>[^\/]+)\/(?<version>[^\/]+)\/(?<architecture>[^\/]+)` at one place; the
-- same chain of steps as `do` in `Option`
unfoldable pub match_reference_at : Text → Option Groups
match_reference_at s = Partial.◌>>=◌ (span_some b':' s) λ c. Partial.◌>>=◌ (expect b':' c.1) λ r₁.
    Partial.◌>>=◌ (span_some b'/' r₁) λ i. Partial.◌>>=◌ (expect b'/' i.1) λ r₂.
      Partial.◌>>=◌ (span_some b'/' r₂) λ v. Partial.◌>>=◌ (expect b'/' v.1) λ r₃.
        Partial.◌>>=◌ (span_some b'/' r₃)
          λ a. some (record { channel = c.0; id = i.0; version = v.0; architecture = a.0 })

-- The checks of `Reference::Reference`; `Reference::create` turns what it throws into an error.
unfoldable pub create : Text → Text → Version → Architecture → Result Reference
create channel id version arch =
    if is_empty channel
    then err "empty channel"
    else if is_empty id
    then err "empty id"
    else ok (record { channel = channel; id = id; version = version; arch = arch })

unfoldable pub parse : Qt → Text → Result Reference
parse qt raw = do
  g ← or_fail (search match_reference_at raw) "regexp mismatched."
  version ← Version.parse qt g.version
  arch ← Architecture.parse g.architecture
  create g.channel g.id version arch

-- `info.arch[0]` of no architecture is undefined.
unfoldable pub from_package_info : Qt → PackageInfoV2 → Option (Result Reference)
from_package_info qt info = elim (Version.parse qt info.version) [
  | err e ↦ some (err e)
  | ok version ↦
      if not (has_tweak version) then some (err "version .tweak is required") else elim info.arch [
        | [] ↦ none
        | raw ∷ _ ↦
            some (do arch ← Architecture.parse raw; create info.channel info.id version arch)
      ]
]

unfoldable pub to_string : Qt → Reference → Text
to_string qt r =
    r.channel
    ++ (b':'
        ∷ (r.id
            ++ (b'/' ∷ (Version.to_string qt r.version ++ (b'/' ∷ Architecture.to_string r.arch)))))

-- `operator!=`
unfoldable pub ne : Reference → Reference → Bool
ne a b =
    not (text_eq a.channel b.channel)
    || (not (text_eq a.id b.id) || (Version.ne a.version b.version || not (same a.arch b.arch)))

-- `operator==`
unfoldable pub eq : Reference → Reference → Bool
unfolding ne
eq a b = not (ne a b)

-- A `QVariantMap` of texts, as the conversions through JSON keep it.
abbrev pub VariantMap : Type 0
VariantMap = List (Text × Text)

unfoldable pub lookup : Text → VariantMap → Option Text
lookup k [] = none
lookup k ((j, v) ∷ m) = if text_eq j k then some v else lookup k m

unfoldable pub to_variant_map : Qt → Reference → VariantMap
to_variant_map qt r =
    (codes "channel", r.channel)
    ∷ (codes "id", r.id)
    ∷ (codes "version", Version.to_string qt r.version)
    ∷ (codes "arch", Architecture.to_string r.arch)
    ∷ []

-- A key that is not there is a null, and no text can be made of it.
unfoldable pub from_variant_map : Qt → VariantMap → Option (Result Reference)
from_variant_map qt m = elim (lookup (codes "version") m) [
  | none ↦ none
  | some raw_version ↦ elim (Version.parse qt raw_version) [
    | err e ↦ some (err e)
    | ok version ↦ elim (lookup (codes "arch") m) [
      | none ↦ none
      | some raw_arch ↦ elim (Architecture.parse raw_arch) [
        | err e ↦ some (err e)
        | ok arch ↦ elim (lookup (codes "channel") m) [
          | none ↦ none
          | some channel ↦ elim (lookup (codes "id") m) [
            | none ↦ none
            | some id ↦ some (create channel id version arch)
          ]
        ]
      ]
    ]
  ]
]
