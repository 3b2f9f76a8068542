-- ===== src/Stream/Defs.antt =====
-- The encoders. A buffer is the list of its bytes. Of an image an encoder reads its size and what
-- `buffer` returns; a value that is sent along is what serde_json writes for it, none where that
-- fails. The JPEG encoder is a parameter. The target is little-endian, with a `usize` of 64 bits.
use pilatus.Base.{
  ℕ, ◌+◌, ◌-◌, ◌*◌, ◌/◌, ◌%◌, ◌^◌, Option, none, some, List, [], ◌∷◌, ◌++◌, map, length,
}
use pilatus.Base.Result.{Result, ok, err, ◌>>=◌}
use pilatus.Base.Bytes.{le_bytes, zeros, copy_at}

pub record Pixels : Type 0 where
  pub width : ℕ
  pub height : ℕ
  pub content : List ℕ

pub data DynamicImage : Type 0 where
  luma8 luma16 : Pixels → DynamicImage

pub data EncodeError : Type 0 where
  not_serialized jpeg_error : EncodeError

pub data StreamingImageFormat : Type 0 where
  jpeg raw : StreamingImageFormat

pub data ColorType : Type 0 where
  luma rgb : ColorType

pub data DataType : Type 0 where
  u8 u16 : DataType

abbrev pub Serialized : Type 0
Serialized = Option (List ℕ)

abbrev pub Buffer : Type 0
Buffer = Result EncodeError (List ℕ)

pub record ImageWithMeta : Type 0 where
  pub image : DynamicImage
  pub meta : Serialized

pub data StreamImageError : Type 0 where
  missed_items actor_error : StreamImageError
  processing_error : (image : DynamicImage) (error : Serialized) → StreamImageError

-- The four codes.
abbrev pub ok_code : ℕ
ok_code = 0

abbrev pub missed_item_code : ℕ
missed_item_code = 16

abbrev pub processing_code : ℕ
processing_code = 32

abbrev pub actor_error_code : ℕ
actor_error_code = 48

-- What a closure does that writes to the buffer: nothing, or `serde_json::to_writer`.
unfoldable pub no_meta : List ℕ → Buffer
no_meta b = ok b

unfoldable pub json_writer : Serialized → List ℕ → Buffer
json_writer none b = err not_serialized
json_writer (some json) b = ok (b ++ json)

-- `buf.len() as u32 - (4 + offset as u32)`, as a release build computes it.
unfoldable pub meta_length : (written offset : ℕ) → ℕ
meta_length written offset = (written % 2 ^ 32 + 2 ^ 32 - (4 + offset % 2 ^ 32) % 2 ^ 32) % 2 ^ 32

unfoldable pub encode_meta : List ℕ → (List ℕ → Buffer) → Buffer
encode_meta buf meta = do
  written ← meta (buf ++ zeros 4)
  ok (copy_at (length buf) (le_bytes 4 (meta_length (length written) (length buf))) written)

unfoldable pub prepare_dynamic_image_buf : ℕ → Serialized → Buffer
prepare_dynamic_image_buf flag meta = encode_meta (flag ∷ 0 ∷ 0 ∷ 0 ∷ []) (json_writer meta)

unfoldable pub bytes_from_u16 : List ℕ → List ℕ
bytes_from_u16 [] = []
bytes_from_u16 (x ∷ xs) = x % 256 ∷ x / 256 % 256 ∷ bytes_from_u16 xs

abbrev pub code_of : DataType → ℕ
code_of u8 = 0
code_of u16 = 1

-- How many bytes take `unaligned` to the next multiple of 8.
unfoldable pub alignment_bytes : ℕ → ℕ
alignment_bytes unaligned = ((unaligned + 7) / 8 * 8 - unaligned) % 2 ^ 32

unfoldable pub encode_raw : List ℕ → List ℕ → DataType → ℕ → ℕ → List ℕ
encode_raw buf image pixel_kind channels width =
    let alignment = alignment_bytes (length buf + 4) in
    buf
    ++ (le_bytes 4 ((length image % 2 ^ 32 + 8 + alignment) % 2 ^ 32)
        ++ (zeros alignment
            ++ (0 ∷ code_of pixel_kind ∷ (le_bytes 2 channels ++ (le_bytes 4 width ++ image)))))

abbrev pub raw_body : List ℕ → DynamicImage → List ℕ
raw_body buf (luma8 i) = encode_raw buf i.content u8 1 i.width
raw_body buf (luma16 i) = encode_raw buf (bytes_from_u16 i.content) u16 1 i.width

unfoldable pub encode_dynamic_raw_image : ℕ → DynamicImage → Serialized → Buffer
encode_dynamic_raw_image flag image meta = do
  buf ← prepare_dynamic_image_buf flag meta
  ok (raw_body buf image)

module _ (encoder : ColorType → (width height : ℕ) → List ℕ → Option (List ℕ)) where
  -- What the encoder appends to the buffer, for a size in `u16`.
  unfoldable pub encoded : List ℕ → List ℕ → ColorType → (width height : ℕ) → Buffer
  encoded buf image color width height =
      elim (encoder color (width % 2 ^ 16) (height % 2 ^ 16) image) [
        | none ↦ err jpeg_error
        | some content ↦ ok (buf ++ content)
      ]

  unfoldable pub encode_jpeg : List ℕ → List ℕ → ColorType → (width height : ℕ) → Buffer
  encode_jpeg buf image color width height =
      let start = buf ++ zeros 4 in
      let offset = length start in
      encoded start image color width height >>= λ all.
      ok (copy_at (offset - 4) (le_bytes 4 ((length all - offset) % 2 ^ 32)) all)

  abbrev pub jpeg_body : List ℕ → DynamicImage → Buffer
  jpeg_body buf (luma8 i) = encode_jpeg buf i.content luma i.width i.height
  jpeg_body buf (luma16 i) =
      encode_jpeg buf (map (λ x. x / 256 % 256) i.content) luma i.width i.height

  unfoldable pub encode_dynamic_jpeg_image : ℕ → DynamicImage → Serialized → Buffer
  encode_dynamic_jpeg_image flag image meta = do
    buf ← prepare_dynamic_image_buf flag meta
    jpeg_body buf image

  unfoldable pub encode_dynamic_image :
      StreamingImageFormat → ℕ → DynamicImage → Serialized → Buffer
  encode_dynamic_image jpeg = encode_dynamic_jpeg_image
  encode_dynamic_image raw = encode_dynamic_raw_image

  -- The message for an image, or for the error that stands in its place.
  unfoldable pub encode : Result StreamImageError ImageWithMeta → StreamingImageFormat → Buffer
  encode (ok x) format = encode_dynamic_image format ok_code x.image x.meta
  encode (err missed_items) format = encode_meta (missed_item_code ∷ 0 ∷ 0 ∷ 0 ∷ []) no_meta
  encode (err (processing_error image error)) format =
      encode_dynamic_image format processing_code image error
  encode (err actor_error) format = encode_meta (actor_error_code ∷ 0 ∷ 0 ∷ 0 ∷ []) no_meta

  -- The messages without a code.
  unfoldable pub encode_legacy :
      List ℕ → ColorType → (width height : ℕ) → (List ℕ → Buffer) → Buffer
  encode_legacy image color width height meta = do
    buf ← encode_meta [] meta
    encoded buf image color width height

  unfoldable pub encode_luma : Pixels → Buffer
  encode_luma i = encode_legacy i.content luma i.width i.height no_meta

  unfoldable pub encode_luma_with : Pixels → Serialized → Buffer
  encode_luma_with i meta = encode_legacy i.content luma i.width i.height (json_writer meta)

  -- `packed` is the buffer of `into_packed`.
  unfoldable pub encode_rgb : (packed : Pixels) → Serialized → Buffer
  encode_rgb packed meta =
      encode_legacy packed.content rgb packed.width packed.height (json_writer meta)
