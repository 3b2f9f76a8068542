-- ===== src/Content/Chunks.antt =====
-- Lists that are compared in pieces of a given size.
use native.Mathlib.Decide.{dec_lt}
use pilatus.Base.{
  ℕ, zero, suc, ◌+◌, ◌≤◌, ◌<◌, ◌≡◌, ◌≢◌, ◌⊎◌, inl, inr, refl, ap, ◌∙◌, sym, subst, false, List, [],
  ◌∷◌, ◌++◌, length, take, drop, PartialEq, ◌==◌, nat_eq, list_eq, arith, Bool-cases, eq_of_test,
  test_of_ne, ne_of_test, take-append-drop, length-append, length-drop, take_all,
}
use pilatus.Base.Bytes.{copy_at}
use pilatus.Content.Defs.{min}

pub length-copy_at_start :
    (xs buf : List ℕ) → length xs ≤ length buf → length (copy_at 0 xs buf) ≡ length buf
unfolding copy_at
length-copy_at_start xs buf h =
    let whole : 0 + length xs ≡ length xs = omega arith in
    rw whole (omega (arith, length-append xs (drop (length xs) buf), length-drop (length xs) buf h))

take-append_le : (m : ℕ) (xs ys : List ℕ) → m ≤ length xs → take m (xs ++ ys) ≡ take m xs
take-append_le zero xs ys h = refl
take-append_le (suc m) [] ys h = absurd (omega (arith, h))
take-append_le (suc m) (x ∷ xs) ys h = ap (λ zs. x ∷ zs) (take-append_le m xs ys (omega arith))

-- The first bytes of a list that a read has written to the start of a buffer.
pub take-copy_at : (m : ℕ) (xs buf : List ℕ) → m ≤ length xs → take m (copy_at 0 xs buf) ≡ take m xs
unfolding copy_at
take-copy_at m xs buf h = take-append_le m xs (drop (0 + length xs) buf) h

pub take-take : (m n : ℕ) (xs : List ℕ) → m ≤ n → take m (take n xs) ≡ take m xs
take-take zero n xs h = refl
take-take (suc m) zero xs h = absurd (omega arith)
take-take (suc m) (suc n) [] h = refl
take-take (suc m) (suc n) (x ∷ xs) h = ap (λ ys. x ∷ ys) (take-take m n xs (omega arith))

pub length-take_le : (n : ℕ) (xs : List ℕ) → length (take n xs) ≤ n
length-take_le zero xs = omega arith
length-take_le (suc n) [] = omega arith
length-take_le (suc n) (x ∷ xs) = omega (arith, length-take_le n xs)

pub drop-nil_of_short : (n : ℕ) (xs : List ℕ) → length (take n xs) < n → drop n xs ≡ []
drop-nil_of_short zero xs h = absurd (omega arith)
drop-nil_of_short (suc n) [] h = refl
drop-nil_of_short (suc n) (x ∷ xs) h = drop-nil_of_short n xs (omega arith)

take_chunk : (n : ℕ) (xs : List ℕ) → take (length (take n xs)) xs ≡ take n xs
take_chunk n xs =
    sym (take-take (length (take n xs)) n xs (length-take_le n xs)) ∙ take_all (take n xs)

test_cong :
    {A : Type 0} ⦃e : PartialEq A⦄ (x y u v : A)
    → (x ≡ y → u ≡ v)
    → (u ≡ v → x ≡ y)
    → (x == y) ≡ (u == v)
test_cong ⦃e = e⦄ x y u v f g = elim (Bool-cases (x == y)) [
  | inl t ↦ rw t (sym ((e.eq_iff u v).1 (f (eq_of_test x y t))))
  | inr n ↦ rw n (sym (test_of_ne u v (λ p. ne_of_test x y n (g p))))
]

pub chunks_nil :
    (k : ℕ) (ca cb : List ℕ)
    → min (length (take (suc k) ca)) (length (take (suc k) cb)) ≡ 0
    → (length (take (suc k) ca) == length (take (suc k) cb)) ≡ (ca == cb)
unfolding min
chunks_nil k [] [] e = refl
chunks_nil k [] (y ∷ ys) e = ground arith
chunks_nil k (x ∷ xs) [] e = ground arith
chunks_nil k (x ∷ xs) (y ∷ ys) e = absurd (ground (arith, e))

-- Contents that are compared in pieces of `n` bytes.
module _ (n : ℕ) (ca cb : List ℕ) where
  abbrev pub la : ℕ
  la = length (take n ca)

  abbrev pub lb : ℕ
  lb = length (take n cb)

  pub chunks_differ : (m : ℕ) → take m ca ≢ take m cb → (ca == cb) ≡ false
  chunks_differ m h = test_of_ne ca cb (λ p. h (ap (take m) p))

  pub chunks_uneven : la ≢ lb → (ca == cb) ≡ false
  chunks_uneven h = test_of_ne ca cb (λ p. h (ap (λ l. length (take n l)) p))

  pub chunks_agree :
      (m : ℕ) → m ≡ la → la ≡ lb → take m ca ≡ take m cb → (drop n ca == drop n cb) ≡ (ca == cb)
  chunks_agree m least e h = test_cong (drop n ca) (drop n cb) ca cb joined (λ p. ap (drop n) p)
    where
      first : take n ca ≡ take n cb
      first =
          sym (take_chunk n ca)
          ∙ subst (λ k. take k ca ≡ take k cb) least h
          ∙ ap (λ k. take k cb) e
          ∙ take_chunk n cb

      joined : drop n ca ≡ drop n cb → ca ≡ cb
      joined p =
          sym (take-append-drop n ca)
          ∙ ap (λ l. l ++ drop n ca) first
          ∙ ap (λ l. take n cb ++ l) p
          ∙ take-append-drop n cb

pub min_le : (a b : ℕ) → (min a b ≤ a) × (min a b ≤ b)
unfolding min
min_le a b = ground arith

pub min_eq : (a b : ℕ) → a ≤ b → min a b ≡ a
unfolding min
min_eq a b h = ground (arith, h)

pub min_eq_right : (a b : ℕ) → b ≤ a → min a b ≡ b
unfolding min
min_eq_right a b h = ground (arith, h)

drop_le : (n : ℕ) (xs : List ℕ) → length (drop n xs) ≤ length xs
drop_le zero xs = omega arith
drop_le (suc n) [] = omega arith
drop_le (suc n) (x ∷ xs) = omega (arith, drop_le n xs)

pub drop_shorter :
    (k : ℕ) (xs : List ℕ) → 0 < length (take (suc k) xs) → length (drop (suc k) xs) < length xs
drop_shorter k [] h = absurd (omega arith)
drop_shorter k (x ∷ xs) h = omega (arith, drop_le k xs)

pub ne_pos : (m : ℕ) → m ≢ 0 → 0 < m
ne_pos m h = ground (arith, h)

pub lt-cases : (a b : ℕ) → (a < b) ⊎ ((b < a) ⊎ (a ≡ b))
lt-cases a b = elim (dec_lt a b) [
  | yes p ↦ inl p
  | no p ↦ elim (dec_lt b a) [ yes q ↦ inr (inl q) | no q ↦ inr (inr (omega (arith, p, q))) ]
]

pub take-nil : (n : ℕ) → take {A = ℕ} n [] ≡ []
take-nil zero = refl
take-nil (suc n) = refl
