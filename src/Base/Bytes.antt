-- ===== src/Base/Bytes.antt =====
-- Bytes, and words in little-endian order as `to_le_bytes` writes them.
use pilatus.Base.{
  ℕ, zero, suc, ◌+◌, ◌/◌, ◌%◌, ◌≡◌, refl, ap, ◌∙◌, sym, List, [], ◌∷◌, ◌++◌, length, take, drop,
  arith, length-append, append_assoc,
}

-- `to_le_bytes` of a word of `k` bytes.
unfoldable pub le_bytes : ℕ → ℕ → List ℕ
le_bytes zero n = []
le_bytes (suc k) n = n % 256 ∷ le_bytes k (n / 256)

unfoldable pub zeros : ℕ → List ℕ
zeros zero = []
zeros (suc k) = 0 ∷ zeros k

-- `copy_from_slice` into the range that begins at `offset`.
unfoldable pub copy_at : ℕ → List ℕ → List ℕ → List ℕ
copy_at offset bytes buf = take offset buf ++ (bytes ++ drop (offset + length bytes) buf)

pub length-zeros : (k : ℕ) → length (zeros k) ≡ k
unfolding zeros
length-zeros zero = refl
length-zeros (suc k) = ap suc (length-zeros k)

pub length-le_bytes : (k n : ℕ) → length (le_bytes k n) ≡ k
unfolding le_bytes
length-le_bytes zero n = refl
length-le_bytes (suc k) n = ap suc (length-le_bytes k (n / 256))

module _ {ℓ} {A : Type ℓ} where
  pub take-append : (xs ys : List A) → take (length xs) (xs ++ ys) ≡ xs
  take-append [] ys = refl
  take-append (x ∷ xs) ys = ap (λ zs. x ∷ zs) (take-append xs ys)

  pub drop-append : (xs ys : List A) → drop (length xs) (xs ++ ys) ≡ ys
  drop-append [] ys = refl
  drop-append (x ∷ xs) ys = drop-append xs ys

-- A word that is written over as many bytes behind a prefix.
pub copy_at-append :
    (before bytes old after : List ℕ)
    → length bytes ≡ length old
    → copy_at (length before) bytes (before ++ (old ++ after)) ≡ before ++ (bytes ++ after)
unfolding copy_at
copy_at-append before bytes old after e =
    let taken = take-append before (old ++ after) in
    let offset : length before + length bytes ≡ length (before ++ old) =
      omega (arith, e, length-append before old) in
    let rest =
      ap (drop (length (before ++ old))) (sym (append_assoc before old after))
      ∙ drop-append (before ++ old) after in
    rw (taken, offset, rest)
