-- ===== src/Stream/Tests.antt =====
-- Runs of the encoders and the theorems at concrete inputs.
use pilatus.Base.{ℕ, ◌%◌, ◌≡◌, refl, Option, some, List, [], ◌∷◌, ◌++◌, length, arith}
use pilatus.Base.Result.{Result, ok, err}
use pilatus.Base.Bytes.{le_bytes, zeros, copy_at}
use pilatus.Stream.Defs.{
  DynamicImage, luma8, luma16, ColorType, luma, encode_raw, u8, alignment_bytes,
  encode_dynamic_raw_image, encode_dynamic_jpeg_image, prepare_dynamic_image_buf, encode_meta,
  json_writer, meta_length, encode_jpeg, encoded, bytes_from_u16, ImageWithMeta, StreamImageError,
  processing_error, jpeg, encode, encode_dynamic_image, encode_legacy, no_meta,
}
use pilatus.Stream.Layout.{read_message}
use pilatus.Stream.Raw.{IsImage, read_raw, read_raw-encode_dynamic_raw_image, encode_raw_aligned}
use pilatus.Stream.Outcomes.{read_message-encode}

abbrev gray : DynamicImage
gray = luma16 (record { width = 2; height = 1; content = 513 ∷ 65535 ∷ [] })

abbrev null : List ℕ
null = b'n' ∷ b'u' ∷ b'l' ∷ b'l' ∷ []

small_image :
    encode_dynamic_raw_image 0 (luma8 (record { width = 2; height = 0; content = [] })) (some null)
    ≡ ok (
        0 ∷ 0 ∷ 0 ∷ 0 ∷ 4 ∷ 0 ∷ 0 ∷ 0 ∷ b'n' ∷ b'u' ∷ b'l' ∷ b'l' ∷ 8 ∷ 0 ∷ 0 ∷ 0 ∷ 0 ∷ 0 ∷ 1 ∷ 0
        ∷ 2 ∷ 0 ∷ 0 ∷ 0 ∷ [])
unfolding encode_dynamic_raw_image prepare_dynamic_image_buf encode_meta json_writer meta_length
    encode_raw alignment_bytes le_bytes zeros copy_at
small_image = refl

-- An encoder that writes the size and the samples.
abbrev plain : ColorType → (width height : ℕ) → List ℕ → Option (List ℕ)
plain color width height image = some (width % 256 ∷ height % 256 ∷ [])

legacy : encode_legacy plain (7 ∷ []) luma 1 1 no_meta ≡ ok (0 ∷ 0 ∷ 0 ∷ 0 ∷ 1 ∷ 1 ∷ [])
unfolding encode_legacy encode_meta no_meta meta_length encoded le_bytes zeros copy_at
legacy = refl

gray-IsImage : IsImage gray
gray-IsImage = record {
  samples = (omega arith, (omega arith, tt));
  width = omega arith;
  size = (let e : length (bytes_from_u16 (513 ∷ 65535 ∷ [])) ≡ 4 = counted in omega (arith, e));
}
  where
    counted : length (bytes_from_u16 (513 ∷ 65535 ∷ [])) ≡ 4
    counted = unfold bytes_from_u16 in refl

read_raw-encode_dynamic_raw_image_example :
    (bytes : List ℕ) × (encode_dynamic_raw_image 0 gray (some null) ≡ ok bytes)
    × (read_raw bytes
        ≡ some
            (record { code = 0; meta = null; channels = 1; width = 2; samples = 513 ∷ 65535 ∷ [] }))
read_raw-encode_dynamic_raw_image_example =
    read_raw-encode_dynamic_raw_image 0 gray null gray-IsImage (omega arith)

encode_raw_aligned_example :
    (before : List ℕ) × (encode_raw null (1 ∷ 2 ∷ []) u8 1 2 ≡ before ++ (1 ∷ 2 ∷ []))
    × (length before % 8 ≡ 0)
encode_raw_aligned_example = encode_raw_aligned null (1 ∷ 2 ∷ []) u8 1 2

abbrev failed : Result StreamImageError ImageWithMeta
failed = err (processing_error gray (some null))

abbrev sent : List ℕ
sent = 32 ∷ 0 ∷ 0 ∷ 0 ∷ 4 ∷ 0 ∷ 0 ∷ 0 ∷ b'n' ∷ b'u' ∷ b'l' ∷ b'l' ∷ 2 ∷ 0 ∷ 0 ∷ 0 ∷ 2 ∷ 1 ∷ []

encode-sent : encode plain failed jpeg ≡ ok sent
unfolding encode encode_dynamic_image encode_dynamic_jpeg_image prepare_dynamic_image_buf
    encode_meta json_writer meta_length encode_jpeg encoded le_bytes zeros copy_at
encode-sent = refl

read_message-encode_example :
    (body : List ℕ) × (read_message sent ≡ some (record { code = 32; meta = null; body = body }))
read_message-encode_example =
    read_message-encode plain failed jpeg null sent refl (omega arith) encode-sent
