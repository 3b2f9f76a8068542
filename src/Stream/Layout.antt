-- ===== src/Stream/Layout.antt =====
-- A reader of the messages as the code lays them out, and what `encode_meta` writes. The code, the
-- reserved bytes and the value stand as in the comment on `StreamableImage`; what follows is the body.
use pilatus.Base.{
  ℕ, zero, suc, ◌+◌, ◌*◌, ◌%◌, ◌^◌, ◌<◌, ◌≡◌, refl, ap, ◌∙◌, sym, Option, none, some, List, [], ◌∷◌,
  ◌++◌, length, arith, append_assoc, length-append,
}
use pilatus.Base.Result.{ok}
use pilatus.Base.Bytes.{le_bytes, zeros, copy_at, copy_at-append, length-le_bytes, length-zeros}
use pilatus.Stream.Defs.{encode_meta, json_writer, no_meta, meta_length, prepare_dynamic_image_buf}

infixl 5 ◌>>=◌
abbrev pub ◌>>=◌ {ℓ κ} : {A : Type ℓ} {B : Type κ} → Option A → (A → Option B) → Option B
none >>= f = none
some a >>= f = f a

-- A word of `k` bytes, and the next `n` bytes, with what follows.
unfoldable pub read_le : ℕ → List ℕ → Option (ℕ × List ℕ)
read_le zero bs = some (0, bs)
read_le (suc k) [] = none
read_le (suc k) (b ∷ bs) = read_le k bs >>= λ r. some (b + 256 * r.0, r.1)

unfoldable pub read_bytes : ℕ → List ℕ → Option (List ℕ × List ℕ)
read_bytes zero bs = some ([], bs)
read_bytes (suc n) [] = none
read_bytes (suc n) (b ∷ bs) = read_bytes n bs >>= λ r. some (b ∷ r.0, r.1)

pub record Message : Type 0 where
  pub code : ℕ
  pub meta : List ℕ
  pub body : List ℕ

unfoldable pub read_message : List ℕ → Option Message
unfolding read_le read_bytes
read_message bytes = read_le 1 bytes >>= λ c. read_bytes 3 c.1 >>= λ reserved.
    read_le 4 reserved.1 >>= λ n.
    read_bytes n.0 n.1 >>= λ m. some (record { code = c.0; meta = m.0; body = m.1 })

pub read_le-le_bytes :
    (n : ℕ) (rest : List ℕ) → n < 2 ^ 32 → read_le 4 (le_bytes 4 n ++ rest) ≡ some (n, rest)
unfolding read_le le_bytes
read_le-le_bytes n rest h = ap (λ (k : ℕ). some (k, rest)) (omega arith)

pub read_le-le_bytes_16 :
    (n : ℕ) (rest : List ℕ) → n < 2 ^ 16 → read_le 2 (le_bytes 2 n ++ rest) ≡ some (n, rest)
unfolding read_le le_bytes
read_le-le_bytes_16 n rest h = ap (λ (k : ℕ). some (k, rest)) (omega arith)

pub read_bytes-append : (xs ys : List ℕ) → read_bytes (length xs) (xs ++ ys) ≡ some (xs, ys)
unfolding read_bytes
read_bytes-append [] ys = refl
read_bytes-append (x ∷ xs) ys = rw (read_bytes-append xs ys) refl

pub read_bytes_all : (xs : List ℕ) → read_bytes (length xs) xs ≡ some (xs, [])
unfolding read_bytes
read_bytes_all [] = refl
read_bytes_all (x ∷ xs) = rw (read_bytes_all xs) refl

-- What a message begins with.
abbrev pub head : ℕ → List ℕ → List ℕ
head flag m = flag ∷ 0 ∷ 0 ∷ 0 ∷ (le_bytes 4 (length m) ++ m)

pub length-head : (flag : ℕ) (m : List ℕ) → length (head flag m) ≡ 8 + length m
length-head flag m =
    omega (arith, length-append (le_bytes 4 (length m)) m, length-le_bytes 4 (length m))

pub read_message-head :
    (flag : ℕ) (m body : List ℕ)
    → length m < 2 ^ 32
    → read_message (head flag m ++ body) ≡ some (record { code = flag; meta = m; body = body })
unfolding read_message read_le read_bytes
read_message-head flag m body h =
    let regroup : head flag m ++ body ≡ flag ∷ 0 ∷ 0 ∷ 0 ∷ (le_bytes 4 (length m) ++ (m ++ body)) =
      ap (λ bs. flag ∷ 0 ∷ 0 ∷ 0 ∷ bs) (append_assoc (le_bytes 4 (length m)) m body) in
    let code : flag + 256 * 0 ≡ flag = omega arith in
    ap read_message regroup
    ∙ rw (read_le-le_bytes (length m) (m ++ body) h, read_bytes-append m body, code) refl

meta_length_lem :
    (buf m : List ℕ) → meta_length (length (buf ++ (zeros 4 ++ m))) (length buf) ≡ length m % 2 ^ 32
unfolding meta_length zeros
meta_length_lem buf m = omega (arith, length-append buf (zeros 4 ++ m))

-- The length is filled in before what the closure has written.
pub encode_meta_lem :
    (buf m : List ℕ)
    → length m < 2 ^ 32
    → encode_meta buf (json_writer (some m)) ≡ ok (buf ++ (le_bytes 4 (length m) ++ m))
unfolding encode_meta json_writer
encode_meta_lem buf m h =
    let size : length m % 2 ^ 32 ≡ length m = omega arith in
    rw (append_assoc buf (zeros 4) m, meta_length_lem buf m, size)
      (ap ok (
        copy_at-append buf (le_bytes 4 (length m)) (zeros 4) m
          (length-le_bytes 4 (length m) ∙ sym (length-zeros 4))))

pub prepare_lem :
    (flag : ℕ) (m : List ℕ)
    → length m < 2 ^ 32
    → prepare_dynamic_image_buf flag (some m) ≡ ok (head flag m)
unfolding prepare_dynamic_image_buf
prepare_lem flag m h = encode_meta_lem (flag ∷ 0 ∷ 0 ∷ 0 ∷ []) m h

-- A message without a value.
pub encode_meta-no_meta :
    (flag : ℕ) → encode_meta (flag ∷ 0 ∷ 0 ∷ 0 ∷ []) no_meta ≡ ok (head flag [])
unfolding encode_meta meta_length no_meta zeros copy_at le_bytes
encode_meta-no_meta flag = refl
