-- ===== src/Stream/Raw.antt =====
-- Images without compression: a reader gets back what was sent, and the pixels are aligned. The reader
-- finds the size of an image before the empty bytes of the alignment, where the code writes it; the
-- comment on `StreamableImage` puts the size behind them.
use pilatus.Base.{
  ℕ, ◌+◌, ◌-◌, ◌*◌, ◌/◌, ◌%◌, ◌^◌, ◌<◌, ◌≡◌, refl, ap, ◌∙◌, sym, Option, some, List, [], ◌∷◌, ◌++◌,
  length, arith, append_assoc, length-append, if◌then◌else◌, ◌==◌, nat_eq, All,
}
use pilatus.Base.Result.{ok}
use pilatus.Base.Bytes.{le_bytes, zeros, length-zeros, length-le_bytes}
use pilatus.Stream.Defs.{
  Pixels, DynamicImage, luma8, luma16, DataType, u8, u16, code_of, alignment_bytes, encode_raw,
  bytes_from_u16, raw_body, encode_dynamic_raw_image,
}
use pilatus.Stream.Layout.{
  ◌>>=◌, read_le, read_bytes, read_message, read_le-le_bytes, read_le-le_bytes_16,
  read_bytes-append, read_bytes_all, head, length-head, read_message-head, prepare_lem,
}

pub record RawImage : Type 0 where
  pub code : ℕ
  pub meta : List ℕ
  pub channels : ℕ
  pub width : ℕ
  pub samples : List ℕ

unfoldable pub words : List ℕ → List ℕ
words [] = []
words (a ∷ []) = []
words (a ∷ b ∷ bs) = (a + 256 * b) ∷ words bs

-- The size, then the empty bytes up to the next multiple of 8, then the description and the image.
abbrev pub read_description : List ℕ → Option (ℕ × (ℕ × (ℕ × List ℕ)))
read_description bytes = read_le 1 bytes >>= λ reserved. read_le 1 reserved.1 >>= λ kind.
    read_le 2 kind.1 >>= λ channels.
    read_le 4 channels.1 >>= λ width. some (kind.0, (channels.0, (width.0, width.1)))

unfoldable pub read_content : ℕ → List ℕ → Option (ℕ × (ℕ × (ℕ × List ℕ)))
read_content offset bytes = read_le 4 bytes >>= λ size. read_bytes size.0 size.1 >>= λ block.
    read_bytes ((8 - (offset + 4) % 8) % 8) block.0 >>= λ aligned. read_description aligned.1

unfoldable pub read_raw : List ℕ → Option RawImage
unfolding read_message read_content words
read_raw bytes = read_message bytes >>= λ m. read_content (8 + length m.meta) m.body >>= λ c.
    some (record {
      code = m.code;
      meta = m.meta;
      channels = c.1.0;
      width = c.1.1.0;
      samples = if c.0 == 0 then c.1.1.1 else words c.1.1.1;
    })

pub alignment_bytes-mod : (n : ℕ) → alignment_bytes n ≡ (8 - n % 8) % 8
unfolding alignment_bytes
alignment_bytes-mod n = omega arith

-- The bytes of an image, and the block that the size counts.
abbrev pub pixel_bytes : DynamicImage → List ℕ
pixel_bytes (luma8 i) = i.content
pixel_bytes (luma16 i) = bytes_from_u16 i.content

abbrev pub pixels : DynamicImage → Pixels
pixels (luma8 i) = i
pixels (luma16 i) = i

abbrev pub kind_of : DynamicImage → DataType
kind_of (luma8 i) = u8
kind_of (luma16 i) = u16

abbrev described : DataType → ℕ → List ℕ → List ℕ
described kind width image = 0 ∷ code_of kind ∷ (le_bytes 2 1 ++ (le_bytes 4 width ++ image))

length-described :
    (kind : DataType) (width : ℕ) (image : List ℕ)
    → length (described kind width image) ≡ 8 + length image
length-described kind width image = omega (
  arith,
  length-append (le_bytes 2 1) (le_bytes 4 width ++ image),
  length-le_bytes 2 1,
  length-append (le_bytes 4 width) image,
  length-le_bytes 4 width,
)

read_described :
    (kind : DataType) (width : ℕ) (image : List ℕ)
    → width < 2 ^ 32
    → read_description (described kind width image) ≡ some (code_of kind, (1, (width, image)))
unfolding read_le
read_described kind width image h =
    let code : code_of kind + 256 * 0 ≡ code_of kind = omega arith in
    rw
      (
        read_le-le_bytes_16 1 (le_bytes 4 width ++ image) (omega arith),
        read_le-le_bytes width image h,
        code,
      )
      refl

pub read_content-encode_raw :
    (buf : List ℕ) (kind : DataType) (width : ℕ) (image : List ℕ)
    → width < 2 ^ 32
    → length image + 16 < 2 ^ 32
    → (body : List ℕ) × (encode_raw buf image kind 1 width ≡ buf ++ body)
      × (read_content (length buf) body ≡ some (code_of kind, (1, (width, image))))
unfolding encode_raw read_content
read_content-encode_raw buf kind width image hw hs =
    let pad = alignment_bytes (length buf + 4) in
    let block = zeros pad ++ described kind width image in
    let size = (length image % 2 ^ 32 + 8 + pad) % 2 ^ 32 in
    let padded : pad ≡ (8 - (length buf + 4) % 8) % 8 = alignment_bytes-mod (length buf + 4) in
    let counted : size ≡ length block = omega (
      arith,
      padded,
      length-zeros pad,
      length-append (zeros pad) (described kind width image),
      length-described kind width image,
    ) in
    let skip : (8 - (length buf + 4) % 8) % 8 ≡ length (zeros pad) =
      omega (arith, padded, length-zeros pad) in
    let whole : read_bytes size block ≡ some (block, []) =
      ap (λ n. read_bytes n block) counted ∙ read_bytes_all block in
    (
      le_bytes 4 size ++ block,
      refl,
      rw
          (
            read_le-le_bytes size block (omega arith),
            whole,
            skip,
            read_bytes-append (zeros pad) (described kind width image),
          )
          (read_described kind width image hw),
    )

words-bytes_from_u16 : (xs : List ℕ) → All (λ x. x < 2 ^ 16) xs → words (bytes_from_u16 xs) ≡ xs
unfolding words bytes_from_u16
words-bytes_from_u16 [] h = refl
words-bytes_from_u16 (x ∷ xs) (h, hs) =
    let e : x % 256 + 256 * (x / 256 % 256) ≡ x = omega arith in
    rw (e, words-bytes_from_u16 xs hs) refl

abbrev InRange : DynamicImage → ℕ → Type 0
InRange (luma8 i) x = x < 2 ^ 8
InRange (luma16 i) x = x < 2 ^ 16

-- The content fits the type of the image, and the size fits its field.
pub record IsImage (image : DynamicImage) : Type 0 where
  pub samples : All (InRange image) (pixels image).content
  pub width : (pixels image).width < 2 ^ 32
  pub size : length (pixel_bytes image) + 16 < 2 ^ 32

read_samples :
    (image : DynamicImage)
    → All (InRange image) (pixels image).content
    → (if code_of (kind_of image) == 0 then pixel_bytes image else words (pixel_bytes image))
      ≡ (pixels image).content
read_samples (luma8 i) h = refl
read_samples (luma16 i) h = words-bytes_from_u16 i.content h

pub raw_body-kind :
    (buf : List ℕ) (image : DynamicImage)
    → raw_body buf image ≡ encode_raw buf (pixel_bytes image) (kind_of image) 1 (pixels image).width
raw_body-kind buf (luma8 i) = refl
raw_body-kind buf (luma16 i) = refl

-- An image whose samples fit their type and whose size, width and value fit in 32 bits is encoded
-- without an error, and a reader that looks for the size before the empty bytes of the alignment
-- gets back the code, the value, the one channel, the width and all samples, for 8 and for 16 bits.
pub read_raw-encode_dynamic_raw_image :
    (flag : ℕ) (image : DynamicImage) (m : List ℕ)
    → IsImage image
    → length m < 2 ^ 32
    → (bytes : List ℕ) × (encode_dynamic_raw_image flag image (some m) ≡ ok bytes)
      × (read_raw bytes
          ≡ some (record {
            code = flag;
            meta = m;
            channels = 1;
            width = (pixels image).width;
            samples = (pixels image).content;
          }))
unfolding encode_dynamic_raw_image read_raw
read_raw-encode_dynamic_raw_image flag image m h hm =
    let (body, split, content) =
      read_content-encode_raw (head flag m) (kind_of image) (pixels image).width (pixel_bytes image)
        h.width h.size in
    (
      head flag m ++ body,
      rw (prepare_lem flag m hm) (ap ok (raw_body-kind (head flag m) image ∙ split)),
      rw
          (
            read_message-head flag m body hm,
            sym (length-head flag m),
            content,
            read_samples image h.samples,
          )
          refl,
    )

-- Whatever stands in the buffer before, `encode_raw` puts the image at its end, behind a multiple
-- of 8 bytes.
pub encode_raw_aligned :
    (buf image : List ℕ) (kind : DataType) (channels width : ℕ)
    → (before : List ℕ) × (encode_raw buf image kind channels width ≡ before ++ image)
      × (length before % 8 ≡ 0)
unfolding encode_raw
encode_raw_aligned buf image kind channels width =
    let pad = alignment_bytes (length buf + 4) in
    let size = le_bytes 4 ((length image % 2 ^ 32 + 8 + pad) % 2 ^ 32) in
    let words = le_bytes 2 channels ++ le_bytes 4 width in
    let before = buf ++ (size ++ (zeros pad ++ (0 ∷ code_of kind ∷ words))) in
    (
      before,
      simp append_assoc,
      omega (
        arith,
        alignment_bytes-mod (length buf + 4),
        length-zeros pad,
        length-append buf (size ++ (zeros pad ++ (0 ∷ code_of kind ∷ words))),
        length-append size (zeros pad ++ (0 ∷ code_of kind ∷ words)),
        length-append (zeros pad) (0 ∷ code_of kind ∷ words),
        length-append (le_bytes 2 channels) (le_bytes 4 width),
        length-le_bytes 4 ((length image % 2 ^ 32 + 8 + pad) % 2 ^ 32),
        length-le_bytes 2 channels,
        length-le_bytes 4 width,
      ),
    )
