-- ===== src/Stream/Jpeg.antt =====
-- Images as JPEG: where the encoder's bytes stand in a message, and the messages of all outcomes.
use pilatus.Base.{
  ℕ, ◌+◌, ◌-◌, ◌/◌, ◌%◌, ◌^◌, ◌<◌, ◌≡◌, refl, ap, ◌∙◌, sym, Option, none, some, List, [], ◌++◌, map,
  length, arith, append_assoc, length-append,
}
use pilatus.Base.Result.{ok, err}
use pilatus.Base.Bytes.{le_bytes, zeros, copy_at-append, length-le_bytes, length-zeros}
use pilatus.Stream.Defs.{
  jpeg_error, DynamicImage, luma8, luma16, ColorType, luma, encoded, encode_jpeg, jpeg_body,
  encode_dynamic_jpeg_image,
}
use pilatus.Stream.Layout.{
  ◌>>=◌, read_le, read_bytes, read_message, read_le-le_bytes, read_bytes_all, head,
  read_message-head, prepare_lem,
}
use pilatus.Stream.Raw.{pixels}

pub record JpegImage : Type 0 where
  pub code : ℕ
  pub meta : List ℕ
  pub content : List ℕ
  pub rest : List ℕ

unfoldable pub read_jpeg : List ℕ → Option JpegImage
read_jpeg bytes = read_message bytes >>= λ m. read_le 4 m.body >>= λ size.
    read_bytes size.0 size.1 >>= λ c.
    some (record { code = m.code; meta = m.meta; content = c.0; rest = c.1 })

-- The samples of 8 bits that the encoder is given.
abbrev pub luma_of : DynamicImage → List ℕ
luma_of (luma8 i) = i.content
luma_of (luma16 i) = map (λ x. x / 256 % 256) i.content

module _ (encoder : ColorType → (width height : ℕ) → List ℕ → Option (List ℕ)) where
  pub encoded_err :
      (buf image : List ℕ) (color : ColorType) (width height : ℕ)
      → encoder color (width % 2 ^ 16) (height % 2 ^ 16) image ≡ none
      → encoded encoder buf image color width height ≡ err jpeg_error
  unfolding encoded
  encoded_err buf image color width height e = rw (e, encoded) refl

  pub encoded_ok :
      (buf image : List ℕ) (color : ColorType) (width height : ℕ) (content : List ℕ)
      → encoder color (width % 2 ^ 16) (height % 2 ^ 16) image ≡ some content
      → encoded encoder buf image color width height ≡ ok (buf ++ content)
  unfolding encoded
  encoded_ok buf image color width height content e = rw (e, encoded) refl

  encode_jpeg_lem :
      (buf image : List ℕ) (color : ColorType) (width height : ℕ) (content : List ℕ)
      → encoder color (width % 2 ^ 16) (height % 2 ^ 16) image ≡ some content
      → length content < 2 ^ 32
      → encode_jpeg encoder buf image color width height
        ≡ ok (buf ++ (le_bytes 4 (length content) ++ content))
  unfolding encode_jpeg
  encode_jpeg_lem buf image color width height content e h =
      let all = buf ++ (zeros 4 ++ content) in
      let start : length (buf ++ zeros 4) ≡ length buf + 4 =
        omega (arith, length-append buf (zeros 4), length-zeros 4) in
      let offset : length (buf ++ zeros 4) - 4 ≡ length buf = omega (arith, start) in
      let size : (length all - length (buf ++ zeros 4)) % 2 ^ 32 ≡ length content = omega (
        arith,
        start,
        length-append buf (zeros 4 ++ content),
        length-append (zeros 4) content,
        length-zeros 4,
      ) in
      rw
        (
          encoded_ok (buf ++ zeros 4) image color width height content e,
          append_assoc buf (zeros 4) content,
          size,
          offset,
        )
        (ap ok (
          copy_at-append buf (le_bytes 4 (length content)) (zeros 4) content
            (length-le_bytes 4 (length content) ∙ sym (length-zeros 4))))

  pub jpeg_body_lem :
      (buf : List ℕ) (image : DynamicImage)
      → jpeg_body encoder buf image
        ≡ encode_jpeg encoder buf (luma_of image) luma (pixels image).width (pixels image).height
  jpeg_body_lem buf (luma8 i) = refl
  jpeg_body_lem buf (luma16 i) = refl

  -- A reader gets back what the encoder has written.
  pub read_jpeg-encode_dynamic_jpeg_image :
      (flag : ℕ) (image : DynamicImage) (m content : List ℕ)
      → length m < 2 ^ 32
      → encoder luma
          ((pixels image).width % 2 ^ 16)
          ((pixels image).height % 2 ^ 16)
          (luma_of image)
        ≡ some content
      → length content < 2 ^ 32
      → (bytes : List ℕ) × (encode_dynamic_jpeg_image encoder flag image (some m) ≡ ok bytes)
        × (read_jpeg bytes ≡ some (record { code = flag; meta = m; content = content; rest = [] }))
  unfolding encode_dynamic_jpeg_image read_jpeg
  read_jpeg-encode_dynamic_jpeg_image flag image m content hm e hc =
      let body = le_bytes 4 (length content) ++ content in
      (
        head flag m ++ body,
        rw (prepare_lem flag m hm) (
            jpeg_body_lem (head flag m) image
            ∙ encode_jpeg_lem (head flag m) (luma_of image) luma (pixels image).width
                (pixels image).height content e hc),
        rw
            (
              read_message-head flag m body hm,
              read_le-le_bytes (length content) content hc,
              read_bytes_all content,
            )
            refl,
      )
