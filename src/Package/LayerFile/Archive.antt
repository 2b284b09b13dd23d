-- ===== src/Package/LayerFile/Archive.antt =====
-- `LayerFile` on the files that `LayerPackager::pack` makes.
use linglong.Prelude.{
  ℕ, ◌+◌, ◌*◌, ◌/◌, ◌%◌, ◌<◌, ◌≡◌, refl, ap, ◌∙◌, false, List, ◌++◌, length, take, drop,
  take-append, drop-append, drop-drop, ltb, lt→ltb, if◌then◌else◌, arith,
}
use linglong.Prelude.Text.{Text, codes, text_eq}
use linglong.Prelude.Result.{ok}
use linglong.Package.LayerFile.{
  LayerInfo, Json, quint32_size, magic_number, LayerFile, read, new, quint32, quint32_bytes,
  keep_length, meta_info_length, with_length, meta_info, binary_data_offset, pack,
}

quint32-quint32_bytes : (n : ℕ) → n < quint32_size → quint32 (quint32_bytes n) ≡ ok n
unfolding quint32 quint32_bytes
quint32-quint32_bytes n h =
    let e : n % 256
          + 256 * (n / 256 % 256)
          + 65536 * (n / 65536 % 256)
          + 16777216 * (n / 16777216 % 256)
        ≡ n =
      omega arith in
    ap ok e

-- Reading as many bytes as stand next in the file.
read-next :
    (f : LayerFile) (next rest : List ℕ)
    → drop f.position f.bytes ≡ next ++ rest
    → read (length next) f ≡ (next, record f { position = f.position + length next })
unfolding read
read-next f next rest e =
    let got : take (length next) (drop f.position f.bytes) ≡ next =
      ap (take (length next)) e ∙ take-append next rest in
    ap (λ l. (l, record f { position = f.position + length l })) got

-- What stands after it.
after_next :
    (f : LayerFile) (next rest : List ℕ)
    → drop f.position f.bytes ≡ next ++ rest
    → drop (f.position + length next) f.bytes ≡ rest
after_next f next rest e =
    drop-drop f.position (length next) f.bytes ∙ ap (drop (length next)) e ∙ drop-append next rest

read_quint32 :
    (f : LayerFile) (n : ℕ) (rest : List ℕ)
    → drop f.position f.bytes ≡ quint32_bytes n ++ rest
    → read 4 f ≡ (quint32_bytes n, record f { position = f.position + 4 })
unfolding quint32_bytes
read_quint32 f n rest e = read-next f (quint32_bytes n) rest e

meta_info_length-read :
    (f : LayerFile) (n : ℕ) (rest : List ℕ)
    → f.meta_info_length_value ≡ 0
    → n < quint32_size
    → drop f.position f.bytes ≡ quint32_bytes n ++ rest
    → meta_info_length f
      ≡ (ok n, record f { position = f.position + 4; meta_info_length_value = n })
unfolding meta_info_length
meta_info_length-read f n rest unread h e =
    let after = record f { position = f.position + 4 } in
    let none_kept : ltb 0 f.meta_info_length_value ≡ false = ap (ltb 0) unread in
    ap
      (λ b.
        if b
        then (ok f.meta_info_length_value, f)
        else keep_length f (quint32 (read 4 f).0) (read 4 f).1)
      none_kept
    ∙ ap (λ p. keep_length f (quint32 p.0) p.1) (read_quint32 f n rest e)
    ∙ ap (λ r. keep_length f r after) (quint32-quint32_bytes n h)

-- Once it was read the length is kept.
meta_info_length-kept :
    (f : LayerFile)
    → 0 < f.meta_info_length_value
    → meta_info_length f ≡ (ok f.meta_info_length_value, f)
unfolding meta_info_length
meta_info_length-kept f h = rw (lt→ltb 0 f.meta_info_length_value h) refl

meta_info-of :
    (json : Json) (f g : LayerFile) (n : ℕ)
    → meta_info_length f ≡ (ok n, g)
    → meta_info json f ≡ (json.load (read n g).0, (read n g).1)
unfolding meta_info
meta_info-of json f g n e =
    ap (λ p. with_length p (λ k after. (json.load (read k after).0, (read k after).1))) e

binary_data_offset-of :
    (f g : LayerFile) (n : ℕ)
    → meta_info_length f ≡ (ok n, g)
    → binary_data_offset f ≡ (ok ((length magic_number + n + 4) % quint32_size), g)
unfolding binary_data_offset
binary_data_offset-of f g n e =
    ap
      (λ p.
        with_length {A = ℕ} p
          (λ k after. (ok ((length magic_number + k + 4) % quint32_size), after)))
      e

module _ (json : Json) (info : Text) (image : List ℕ) where
  abbrev layer : LayerInfo
  layer = record { version = codes "1"; info = info }

  abbrev size : ℕ
  size = length (json.dump layer)

  abbrev opened : LayerFile
  opened = record {
    bytes = pack json info image;
    position = length magic_number;
    meta_info_length_value = 0;
  }

  abbrev after_length : LayerFile
  after_length = record opened { position = length magic_number + 4; meta_info_length_value = size }

  abbrev after_meta_info : LayerFile
  after_meta_info = record after_length { position = length magic_number + 4 + size }

  small : size < quint32_size → size % quint32_size ≡ size
  small h = omega arith

  behind_magic :
      size < quint32_size
      → drop (length magic_number) (pack json info image)
        ≡ quint32_bytes size ++ (json.dump layer ++ image)
  unfolding pack
  behind_magic h = rw (small h) (drop-append magic_number _)

  new-pack : size < quint32_size → new (pack json info image) ≡ ok opened
  unfolding new pack text_eq
  new-pack h =
      let start : LayerFile = record {
        bytes = pack json info image;
        position = 0;
        meta_info_length_value = 0;
      } in
      let got = read-next start magic_number _ (begins refl) in rw got refl
    where
      begins :
          {b : List ℕ}
          → pack json info image ≡ b
          → pack json info image
            ≡ magic_number ++ (quint32_bytes (size % quint32_size) ++ (json.dump layer ++ image))
      begins e = refl

  length-pack : size < quint32_size → meta_info_length opened ≡ (ok size, after_length)
  length-pack h = meta_info_length-read opened size _ refl h (behind_magic h)

  behind_length :
      size < quint32_size
      → drop (length magic_number + 4) (pack json info image) ≡ json.dump layer ++ image
  unfolding quint32_bytes
  behind_length h =
      after_next opened (quint32_bytes size) (json.dump layer ++ image) (behind_magic h)

  meta_info-pack : size < quint32_size → meta_info json opened ≡ (ok layer, after_meta_info)
  meta_info-pack h =
      meta_info-of json opened after_length size (length-pack h)
      ∙ ap (λ p. (json.load p.0, p.1))
          (read-next after_length (json.dump layer) image (behind_length h))
      ∙ ap (λ r. (r, after_meta_info)) (json.load-dump layer)

  -- A file that was packed is a layer file, its meta info is what was packed, and the offset of the
  -- binary data, asked for afterwards, is where the image starts; if the meta info is not empty and
  -- the places in the file fit into 32 bits.
  pub pack-read_back :
      0 < size
      → size + length magic_number + 4 < quint32_size
      → (f : LayerFile) × (new (pack json info image) ≡ ok f)
        × ((meta_info json f).0 ≡ ok layer)
        × ((offset : ℕ) × ((binary_data_offset (meta_info json f).1).0 ≡ ok offset)
            × (drop offset (pack json info image) ≡ image))
  pack-read_back some_text fits =
      let h : size < quint32_size = omega arith in
      let sum : (length magic_number + size + 4) % quint32_size ≡ length magic_number + 4 + size =
        omega arith in
      (
        opened,
        new-pack h,
        ap (λ p. p.0) (meta_info-pack h),
        (
          length magic_number + 4 + size,
          ap (λ p. (binary_data_offset p.1).0) (meta_info-pack h)
              ∙ ap (λ p. p.0)
                  (binary_data_offset-of after_meta_info after_meta_info size
                    (meta_info_length-kept after_meta_info some_text))
              ∙ ap ok sum,
          after_next after_length (json.dump layer) image (behind_length h),
        ),
      )

  -- If the meta info is not empty and its size fits in 32 bits, a second call of `metaInfo` does
  -- not return it again, but loads as many bytes of the image.
  meta_info_twice :
      0 < size
      → size < quint32_size
      → (meta_info json (meta_info json opened).1).0 ≡ json.load (take size image)
  unfolding read
  meta_info_twice some_text h =
      ap (λ p. (meta_info json p.1).0) (meta_info-pack h)
      ∙ ap (λ p. p.0)
          (meta_info-of json after_meta_info after_meta_info size
            (meta_info_length-kept after_meta_info some_text))
      ∙ ap (λ l. json.load (take size l))
          (after_next after_length (json.dump layer) image (behind_length h))
