-- ===== src/Package/Architecture.antt =====
-- package/architecture.{h,cpp}, but for the reading of the program's own ELF file: the interpreter
-- that it finds there is an argument.
use linglong.Prelude.{◌≡◌, ◌≢◌, refl, Bool, true, false, [], arith, if◌then◌else◌}
use linglong.Prelude.Text.{Text, codes, text_eq, text_eq_iff}
use linglong.Prelude.Result.{Result, ok, err}

pub data Architecture : Type 0 where
  unknow x86_64 arm64 loong64 loongarch64 : Architecture

-- `operator==`, which compares the values
unfoldable pub same : Architecture → Architecture → Bool
same unknow unknow = true
same x86_64 x86_64 = true
same arm64 arm64 = true
same loong64 loong64 = true
same loongarch64 loongarch64 = true
same a b = false

pub same_sound : (a b : Architecture) → same a b ≡ true → a ≡ b
unfolding same
same_sound a b h = ground arith

pub same_refl : (a : Architecture) → same a a ≡ true
unfolding same
same_refl a = ground arith

unfoldable pub to_string : Architecture → Text
to_string x86_64 = codes "x86_64"
to_string arm64 = codes "arm64"
to_string loongarch64 = codes "loongarch64"
to_string loong64 = codes "loong64"
to_string unknow = codes "unknow"

unfoldable pub get_triplet : Architecture → Text
get_triplet unknow = codes "unknow"
get_triplet x86_64 = codes "x86_64-linux-gnu"
get_triplet arm64 = codes "aarch64-linux-gnu"
get_triplet loong64 = codes "loongarch64-linux-gnu"
get_triplet loongarch64 = codes "loongarch64-linux-gnu"

-- `Architecture::Architecture(raw)`; `Architecture::parse` turns what it throws into an error.
unfoldable pub parse : Text → Result Architecture
parse raw =
    if text_eq raw (codes "x86_64")
    then ok x86_64
    else if text_eq raw (codes "arm64")
    then ok arm64
    else if text_eq raw (codes "loongarch64")
    then ok loongarch64
    else if text_eq raw (codes "loong64")
    then ok loong64
    else err "unknow architecture"

-- `Architecture::currentCPUArchitecture`, from what `getInterpreter` returns.
unfoldable pub current_cpu_architecture : Text → Result Architecture
unfolding parse
current_cpu_architecture interpreter =
    if text_eq interpreter (codes "/lib64/ld-linux-x86-64.so.2")
    then parse (codes "x86_64")
    else if text_eq interpreter (codes "/lib/ld-linux-aarch64.so.1")
    then parse (codes "arm64")
    else if text_eq interpreter (codes "/lib64/ld-linux-loongarch-lp64d.so.1")
    then parse (codes "loong64")
    else if text_eq interpreter (codes "/lib64/ld.so.1")
    then parse (codes "loongarch64")
    else parse []

-- Every architecture but `unknow` is read back from its text.
pub parse-to_string_arch : (a : Architecture) → a ≢ unknow → parse (to_string a) ≡ ok a
unfolding parse to_string text_eq
parse-to_string_arch unknow h = absurd (h refl)
parse-to_string_arch x86_64 h = refl
parse-to_string_arch arm64 h = refl
parse-to_string_arch loong64 h = refl
parse-to_string_arch loongarch64 h = refl

-- A text that is accepted is that of the architecture, which is not `unknow`.
pub parse-sound_arch :
    (raw : Text) (a : Architecture) → parse raw ≡ ok a → (a ≢ unknow) × (raw ≡ to_string a)
unfolding parse to_string
parse-sound_arch raw a h = ground (
  arith,
  text_eq_iff raw (codes "x86_64"),
  text_eq_iff raw (codes "arm64"),
  text_eq_iff raw (codes "loongarch64"),
  text_eq_iff raw (codes "loong64"),
)
