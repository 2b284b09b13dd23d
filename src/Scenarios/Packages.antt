-- ===== src/Scenarios/Packages.antt =====
-- References, the names of layers and layer files at concrete inputs.
use linglong.Prelude.{
  ℕ, ◌≡◌, ◌≢◌, ◌↔◌, refl, true, false, none, some, List, [], ◌∷◌, ◌++◌, length, take, drop,
  take-append, drop-append, arith,
}
use linglong.Prelude.Text.{Text, codes}
use linglong.Prelude.Result.{Result, ok, err}
use linglong.Package.Qt.{plain_qt}
use linglong.Package.Reference
use linglong.Package.Reference.{to_variant_map, from_variant_map}
use linglong.Package.Reference.RoundTrip as ReferenceText
use linglong.Package.Reference.RoundTrip.{parse-to_string_reference}
use linglong.Package.Reference.Accepts.{parse-IsWellFormed_reference, parse_ignores_rest}
use linglong.Package.FuzzyReference
use linglong.Package.FuzzyReference.{FuzzyReference}
use linglong.Package.FuzzyReference.RoundTrip as FuzzyText
use linglong.Package.FuzzyReference.RoundTrip.{parse-to_string_fuzzy}
use linglong.Package.LayerFile.{
  LayerInfo, Json, LayerFile, magic_number, new, meta_info, binary_data_offset, pack,
}
use linglong.Package.LayerFile.Archive.{pack-read_back}
use linglong.Scenarios.Data.{v1234, v1234-IsInRange, demo, demo-IsWellFormed}

parse-to_string_reference_example :
    Reference.parse plain_qt (Reference.to_string plain_qt demo) ≡ ok demo
parse-to_string_reference_example = parse-to_string_reference plain_qt demo demo-IsWellFormed

parse-IsWellFormed_reference_example :
    ReferenceText.IsWellFormed demo
    × (Reference.parse plain_qt (Reference.to_string plain_qt demo) ≡ ok demo)
parse-IsWellFormed_reference_example =
    parse-IsWellFormed_reference plain_qt (Reference.to_string plain_qt demo) demo
      (parse-to_string_reference plain_qt demo demo-IsWellFormed)

parse_ignores_rest_example :
    Reference.parse plain_qt (Reference.to_string plain_qt demo ++ codes "/binary") ≡ ok demo
parse_ignores_rest_example = parse_ignores_rest plain_qt demo (codes "binary") demo-IsWellFormed

abbrev fuzzy : FuzzyReference
fuzzy = record {
  channel = some (codes "main");
  id = codes "org.demo";
  version = some v1234;
  arch = none;
}

channel_test : FuzzyReference.is_open (codes "main") ≡ false
unfolding FuzzyReference.is_open linglong.Prelude.Text.is_empty linglong.Prelude.Text.text_eq
channel_test = refl

abbrev fuzzy-IsWellFormed : FuzzyText.IsWellFormed fuzzy
fuzzy-IsWellFormed = record {
  channel = (channel_test, omega arith);
  id_some = λ e. cc e;
  id_whole = omega arith;
  version = v1234-IsInRange;
  arch = tt;
}

parse-to_string_fuzzy_example :
    FuzzyReference.parse plain_qt (FuzzyReference.to_string plain_qt fuzzy) ≡ ok fuzzy
parse-to_string_fuzzy_example = parse-to_string_fuzzy plain_qt fuzzy fuzzy-IsWellFormed

-- A layer info as text: the number of units of the version, the version and the description.
abbrev load_plain : List ℕ → Result LayerInfo
load_plain [] = err "parse error"
load_plain (n ∷ rest) = ok (record { version = take n rest; info = drop n rest })

load_plain-dump : (x : LayerInfo) → load_plain (length x.version ∷ (x.version ++ x.info)) ≡ ok x
load_plain-dump x = rw (take-append x.version x.info, drop-append x.version x.info) refl

abbrev plain_json : Json
plain_json = record {
  dump = λ x. length x.version ∷ (x.version ++ x.info);
  load = load_plain;
  load-dump = load_plain-dump;
}

pack-read_back_example :
    (f : LayerFile) × (new (pack plain_json (codes "info") (codes "image")) ≡ ok f)
    × ((meta_info plain_json f).0 ≡ ok (record { version = codes "1"; info = codes "info" }))
    × ((offset : ℕ) × ((binary_data_offset (meta_info plain_json f).1).0 ≡ ok offset)
        × (drop offset (pack plain_json (codes "info") (codes "image")) ≡ codes "image"))
pack-read_back_example =
    pack-read_back plain_json (codes "info") (codes "image") (omega arith) (omega arith)

abbrev opened : LayerFile
opened = record {
  bytes = pack plain_json (codes "info") (codes "image");
  position = length magic_number;
  meta_info_length_value = 0;
}
