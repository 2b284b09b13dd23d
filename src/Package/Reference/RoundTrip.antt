-- ===== src/Package/Reference/RoundTrip.antt =====
-- The readers of a reference on what its writers make, and its equality operator.
use linglong.Prelude.{◌≡◌, ◌≢◌, ◌↔◌, true, some, [], ◌∷◌, ◌++◌, arith}
use linglong.Prelude.Text.{Lacks, text_eq, text_eq_iff, is_empty_ne}
use linglong.Prelude.Result.{ok}
use linglong.Package.Qt.{Qt}
use linglong.Package.Pattern.{expect_self, span_some-append, span_some_all, search_here}
use linglong.Package.Version
use linglong.Package.Version.{Version}
use linglong.Package.Version.Order.{eq_sound, eq_refl}
use linglong.Package.Version.Parse.{IsInRange, parse-to_string_version}
use linglong.Package.Version.Printed.{to_string-Lacks, to_string-ne-nil}
use linglong.Package.Architecture
use linglong.Package.Architecture.{
  Architecture, unknow, x86_64, arm64, loong64, loongarch64, same, same_sound, same_refl,
  parse-to_string_arch,
}
use linglong.Package.Reference.{
  Reference, match_reference_at, create, parse, to_string, eq, lookup, to_variant_map,
  from_variant_map,
}

-- The parts can stand in the text of a reference.
pub record IsWellFormed (r : Reference) : Type 0 where
  pub channel_some : r.channel ≢ []
  pub channel_whole : Lacks b':' r.channel
  pub id_some : r.id ≢ []
  pub id_whole : Lacks b'/' r.id
  pub version : IsInRange r.version
  pub arch : r.arch ≢ unknow

pub arch-Lacks : (a : Architecture) → Lacks b'/' (Architecture.to_string a)
unfolding Architecture.to_string
arch-Lacks unknow = omega arith
arch-Lacks x86_64 = omega arith
arch-Lacks arm64 = omega arith
arch-Lacks loong64 = omega arith
arch-Lacks loongarch64 = omega arith

pub arch-ne-nil : (a : Architecture) → Architecture.to_string a ≢ []
unfolding Architecture.to_string
arch-ne-nil unknow e = cc
arch-ne-nil x86_64 e = cc
arch-ne-nil arm64 e = cc
arch-ne-nil loong64 e = cc
arch-ne-nil loongarch64 e = cc

module _ (qt : Qt) (r : Reference) (w : IsWellFormed r) where
  match_reference_at-to_string :
      match_reference_at (to_string qt r)
      ≡ some (record {
        channel = r.channel;
        id = r.id;
        version = Version.to_string qt r.version;
        architecture = Architecture.to_string r.arch;
      })
  unfolding match_reference_at to_string
  match_reference_at-to_string =
      let v = Version.to_string qt r.version in
      let a = Architecture.to_string r.arch in
      simp (
        span_some-append b':' r.channel (r.id ++ (b'/' ∷ (v ++ (b'/' ∷ a)))) w.channel_whole
            w.channel_some,
        expect_self,
        span_some-append b'/' r.id (v ++ (b'/' ∷ a)) w.id_whole w.id_some,
        span_some-append b'/' v a (to_string-Lacks qt b'/' r.version (omega arith) w.version)
            (to_string-ne-nil qt r.version),
        span_some_all b'/' a (arch-Lacks r.arch) (arch-ne-nil r.arch),
      )

  pub create_fits : create r.channel r.id r.version r.arch ≡ ok r
  unfolding create
  create_fits = rw (is_empty_ne r.channel w.channel_some, is_empty_ne r.id w.id_some)

  -- A reference is read back from its text if its channel and its id are not empty, the channel has
  -- no colon and the id no slash, the version fits in `qlonglong`s and the architecture is known.
  pub parse-to_string_reference : parse qt (to_string qt r) ≡ ok r
  unfolding parse
  parse-to_string_reference = simp (
    search_here match_reference_at _ _ match_reference_at-to_string,
    parse-to_string_version qt r.version w.version,
    parse-to_string_arch r.arch w.arch,
    create_fits,
  )

  -- A well formed reference is read back from the map that it is sent as over D-Bus.
  from_variant_map-to_variant_map : from_variant_map qt (to_variant_map qt r) ≡ some (ok r)
  unfolding from_variant_map to_variant_map lookup text_eq
  from_variant_map-to_variant_map = ground (
    arith,
    parse-to_string_version qt r.version w.version,
    parse-to_string_arch r.arch w.arch,
    create_fits,
  )

-- The equality operator holds exactly of the same reference.
pub eq_iff_reference : (a b : Reference) → (eq a b ≡ true) ↔ (a ≡ b)
unfolding eq Version.ne
eq_iff_reference a b = ground (
  arith,
  text_eq_iff a.channel b.channel,
  text_eq_iff a.id b.id,
  eq_sound a.version b.version,
  eq_refl a.version,
  same_sound a.arch b.arch,
  same_refl a.arch,
)
