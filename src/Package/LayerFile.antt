-- ===== src/Package/LayerFile.antt =====
-- package/layer_file.{h,cpp} and the bytes that `LayerPackager::pack` writes. A file is its bytes
-- and the place that the next read starts at; a byte is a number below 256. The JSON text of the
-- meta info and the erofs image are arguments.
pub mod Archive
use linglong.Prelude.{
  ℕ, suc, ◌+◌, ◌*◌, ◌/◌, ◌%◌, ◌≡◌, Bool, true, false, List, [], ◌∷◌, ◌++◌, length, take, drop, ltb,
  leb, if◌then◌else◌,
}
use linglong.Prelude.Text.{Text, codes, text_eq}
use linglong.Prelude.Result.{Result, ok, err}

-- LayerInfo.hpp; `info` as its JSON text
pub record LayerInfo : Type 0 where
  pub version : Text
  pub info : Text

-- nlohmann::json: an object that is dumped is loaded again.
pub record Json : Type 0 where
  pub dump : LayerInfo → List ℕ
  pub load : List ℕ → Result LayerInfo
  pub load-dump : (x : LayerInfo) → load (dump x) ≡ ok x

-- `quint32`
abbrev pub quint32_size : ℕ
quint32_size = 4294967296

abbrev pub magic_number : List ℕ
magic_number = codes "<<< deepin linglong layer archive >>>" ++ (0 ∷ 0 ∷ 0 ∷ [])

pub record LayerFile : Type 0 where
  pub bytes : List ℕ
  pub position : ℕ
  pub meta_info_length_value : ℕ

-- `QIODevice::read`: at most so many bytes, from the position on, which moves behind them.
unfoldable pub read : ℕ → LayerFile → List ℕ × LayerFile
read n f =
    let found = take n (drop f.position f.bytes) in
    (found, record f { position = f.position + length found })

-- The constructor, on a file with these bytes that can be opened.
unfoldable pub new : List ℕ → Result LayerFile
new bytes =
    let (found, f) =
      read (length magic_number)
        (record { bytes = bytes; position = 0; meta_info_length_value = 0 }) in
    if text_eq found magic_number then ok f else err "invalid magic number, this is not a layer"

-- The value of four bytes, the least significant first.
unfoldable pub quint32 : List ℕ → Result ℕ
quint32 (a ∷ b ∷ c ∷ d ∷ []) = ok (a + 256 * b + 65536 * c + 16777216 * d)
quint32 other = err "unknown error."

unfoldable pub quint32_bytes : ℕ → List ℕ
quint32_bytes n = (n % 256) ∷ (n / 256 % 256) ∷ (n / 65536 % 256) ∷ (n / 16777216 % 256) ∷ []

-- A stream that ends early puts the position back and leaves 0.
abbrev pub keep_length : LayerFile → Result ℕ → LayerFile → Result ℕ × LayerFile
keep_length f (err e) after = (err e, f)
keep_length f (ok n) after = (ok n, record after { meta_info_length_value = n })

-- The length is read once.
unfoldable pub meta_info_length : LayerFile → Result ℕ × LayerFile
meta_info_length f =
    if ltb 0 f.meta_info_length_value
    then (ok f.meta_info_length_value, f)
    else keep_length f (quint32 (read 4 f).0) (read 4 f).1

-- What is done with the length, if it could be read.
abbrev pub with_length {ℓ} :
    {A : Type ℓ}
    → Result ℕ × LayerFile
    → (ℕ → LayerFile → Result A × LayerFile)
    → Result A × LayerFile
with_length (err e, f) next = (err e, f)
with_length (ok n, f) next = next n f

unfoldable pub meta_info : Json → LayerFile → Result LayerInfo × LayerFile
meta_info json f =
    with_length (meta_info_length f) (λ n after. (json.load (read n after).0, (read n after).1))

-- The sum is computed in 64 bits and returned in 32.
unfoldable pub binary_data_offset : LayerFile → Result ℕ × LayerFile
binary_data_offset f =
    with_length (meta_info_length f)
      (λ n after. (ok ((length magic_number + n + 4) % quint32_size), after))

-- The layer file that `pack` writes for a description and the image that `mkfs.erofs` makes.
unfoldable pub pack : Json → Text → List ℕ → List ℕ
pack json info image =
    let text = json.dump (record { version = codes "1"; info = info }) in
    magic_number ++ (quint32_bytes (length text % quint32_size) ++ (text ++ image))
