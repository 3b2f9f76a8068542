-- ===== src/Stream/Outcomes.antt =====
-- What a message says of the outcome: its code and the value that is sent along.
use pilatus.Base.{
  ℕ, ◌-◌, ◌%◌, ◌^◌, ◌<◌, ◌≡◌, refl, ap, ◌∙◌, sym, subst, Option, some, List, [], ◌∷◌, ◌++◌, length,
  arith, append_assoc, append-nil, length-append, Option-cases, inl, inr,
}
use pilatus.Base.Result.{Result, ok, err}
use pilatus.Base.Bytes.{zeros, copy_at, take-append, length-zeros}
use pilatus.Stream.Defs.{
  DynamicImage, Serialized, Buffer, ColorType, luma, encode_jpeg, encode_dynamic_jpeg_image,
  encode_dynamic_raw_image, encode_raw, ImageWithMeta, StreamImageError, missed_items, actor_error,
  processing_error, jpeg, raw, encode, encode_dynamic_image, encode_meta, no_meta,
  StreamingImageFormat,
}
use pilatus.Stream.Layout.{read_message, head, read_message-head, prepare_lem, encode_meta-no_meta}
use pilatus.Stream.Raw.{raw_body-kind, pixels}
use pilatus.Stream.Jpeg.{jpeg_body_lem, luma_of, encoded_ok, encoded_err}

abbrev pub code : Result StreamImageError ImageWithMeta → ℕ
code (ok x) = 0
code (err missed_items) = 16
code (err (processing_error image error)) = 32
code (err actor_error) = 48

abbrev pub meta_of : Result StreamImageError ImageWithMeta → Serialized
meta_of (ok x) = x.meta
meta_of (err missed_items) = some []
meta_of (err (processing_error image error)) = error
meta_of (err actor_error) = some []

-- A buffer that begins as given, if there is one.
abbrev Begins : List ℕ → Buffer → Type 0
Begins before (ok bytes) = (body : List ℕ) × (bytes ≡ before ++ body)
Begins before (err e) = Unit

no_meta-Begins :
    (flag : ℕ) (m : List ℕ)
    → ◌≡◌ {A = Serialized} (some []) (some m)
    → Begins (head flag m) (encode_meta (flag ∷ 0 ∷ 0 ∷ 0 ∷ []) no_meta)
no_meta-Begins flag m e =
    let empty : [] ≡ m = cc e in
    rw (encode_meta-no_meta flag) ([], ap (head flag) empty ∙ sym (append-nil (head flag m)))

module _ (encoder : ColorType → (width height : ℕ) → List ℕ → Option (List ℕ)) where
  encode_jpeg-Begins :
      (buf image : List ℕ) (color : ColorType) (width height : ℕ)
      → Begins buf (encode_jpeg encoder buf image color width height)
  unfolding encode_jpeg copy_at
  encode_jpeg-Begins buf image color width height =
      elim (Option-cases (encoder color (width % 2 ^ 16) (height % 2 ^ 16) image)) [
        | inl e ↦ rw (encoded_err encoder (buf ++ zeros 4) image color width height e) tt
        | inr (content, e) ↦
            let offset : length (buf ++ zeros 4) - 4 ≡ length buf =
              omega (arith, length-append buf (zeros 4), length-zeros 4) in
            rw (encoded_ok encoder (buf ++ zeros 4) image color width height content e) (
              rw (offset, append_assoc buf (zeros 4) content, take-append buf (zeros 4 ++ content))
                (_, refl))
      ]

  encode_dynamic_image-Begins :
      (format : StreamingImageFormat) (flag : ℕ) (image : DynamicImage) (m : List ℕ)
      → length m < 2 ^ 32
      → Begins (head flag m) (encode_dynamic_image encoder format flag image (some m))
  unfolding encode_dynamic_image encode_dynamic_raw_image encode_dynamic_jpeg_image encode_raw
  encode_dynamic_image-Begins raw flag image m h =
      rw (prepare_lem flag m h, raw_body-kind (head flag m) image) (_, refl)
  encode_dynamic_image-Begins jpeg flag image m h =
      rw (prepare_lem flag m h, jpeg_body_lem encoder (head flag m) image)
        (encode_jpeg-Begins (head flag m) (luma_of image) luma (pixels image).width
          (pixels image).height)

  encode-Begins :
      (res : Result StreamImageError ImageWithMeta) (format : StreamingImageFormat) (m : List ℕ)
      → meta_of res ≡ some m
      → length m < 2 ^ 32
      → Begins (head (code res) m) (encode encoder res format)
  unfolding encode
  encode-Begins (ok x) format m e h = rw e (encode_dynamic_image-Begins format 0 x.image m h)
  encode-Begins (err (processing_error image error)) format m e h =
      rw e (encode_dynamic_image-Begins format 32 image m h)
  encode-Begins (err missed_items) format m e h = no_meta-Begins 16 m e
  encode-Begins (err actor_error) format m e h = no_meta-Begins 48 m e

  -- In either format, a message that is encoded at all begins with the code of its outcome (0 for
  -- an image, 16 for missed items, 32 for an image with an error, 48 for an error of an actor),
  -- followed by the value that is sent along, which is empty where there is no image. (The value
  -- has fewer than 2 ^ 32 bytes.)
  pub read_message-encode :
      (res : Result StreamImageError ImageWithMeta) (format : StreamingImageFormat)
      (m bytes : List ℕ)
      → meta_of res ≡ some m
      → length m < 2 ^ 32
      → encode encoder res format ≡ ok bytes
      → (body : List ℕ) × (read_message bytes
          ≡ some (record { code = code res; meta = m; body = body }))
  read_message-encode res format m bytes e h sent =
      let (body, begins) =
        subst (Begins (head (code res) m)) sent (encode-Begins res format m e h) in
      (body, ap read_message begins ∙ read_message-head (code res) m body h)
