-- ===== src/Content/Full.antt =====
-- With readers that fill the buffer as long as they have content, the loop compares the contents.
use pilatus.Base.{
  ℕ, zero, suc, ◌+◌, ◌-◌, ◌≤◌, ◌<◌, ◌≡◌, ◌≢◌, inl, inr, refl, ap, ◌∙◌, sym, Bool, false, Option,
  some, List, [], length, take, drop, ◌==◌, nat_eq, list_eq, arith, eq_refl, eq-cases, test_of_ne,
}
use pilatus.Base.Bytes.{zeros, copy_at, length-zeros}
use pilatus.Base.Result.{Result, ok}
use pilatus.Content.Defs.{AsyncRead, min, round, rounds, is_content_equal}
use pilatus.Content.Chunks.{
  chunks_agree, chunks_differ, chunks_nil, chunks_uneven, drop-nil_of_short, drop_shorter,
  length-copy_at_start, length-take_le, lt-cases, min_eq, min_eq_right, min_le, ne_pos,
  take-copy_at, take-nil, take-take,
}

-- What a reader still delivers, and that a read delivers as much of it as there is room for.
pub record Fills {E : Type 0} (R : AsyncRead E) (content : R.State → List ℕ) : Type 0 where
  pub next : ℕ → R.State → R.State
  pub read-ok : (room : ℕ) (s : R.State) → R.read room s ≡ ok (take room (content s), next room s)
  pub content-next : (room : ℕ) (s : R.State) → content (next room s) ≡ drop room (content s)

-- The three ways in which a round ends when both reads succeed.
module _ {E : Type 0} (A B : AsyncRead E)
    (again : (buf_a buf_b : List ℕ) (ra rb : ℕ) → A.State → B.State → Option (Result E Bool))
    (buf_a buf_b : List ℕ) (ra rb : ℕ) (xs ys : List ℕ) (a : A.State) (b : B.State) where
  abbrev m : ℕ
  m = min (length xs + ra) (length ys + rb)

  round_done :
      m ≡ 0
      → round A B again buf_a buf_b ra rb (ok (xs, a)) (ok (ys, b))
        ≡ some (ok (length xs + ra == length ys + rb))
  round_done e = rw e refl

  round_differs :
      m ≢ 0
      → take m (copy_at ra xs buf_a) ≢ take m (copy_at rb ys buf_b)
      → round A B again buf_a buf_b ra rb (ok (xs, a)) (ok (ys, b)) ≡ some (ok false)
  round_differs e h =
      rw
        (
          test_of_ne m 0 e,
          test_of_ne (take m (copy_at ra xs buf_a)) (take m (copy_at rb ys buf_b)) h,
        )
        refl

  round_goes_on :
      m ≢ 0
      → take m (copy_at ra xs buf_a) ≡ take m (copy_at rb ys buf_b)
      → round A B again buf_a buf_b ra rb (ok (xs, a)) (ok (ys, b))
        ≡ again
            (copy_at ra xs buf_a)
            (copy_at rb ys buf_b)
            (length xs + ra - m)
            (length ys + rb - m)
            a
            b
  round_goes_on e h = rw (test_of_ne m 0 e, h, eq_refl (take m (copy_at rb ys buf_b))) refl

module _ {E : Type 0} (A B : AsyncRead E) {content_a : A.State → List ℕ}
    {content_b : B.State → List ℕ} (fills_a : Fills A content_a) (fills_b : Fills B content_b)
    (k : ℕ) where
  abbrev n : ℕ
  n = suc k

  step :
      (fuel : ℕ) (buf_a buf_b : List ℕ) (ra rb : ℕ) (a : A.State) (b : B.State)
      → rounds A B (suc fuel) buf_a buf_b ra rb a b
        ≡ round A B
            (rounds A B fuel)
            buf_a
            buf_b
            ra
            rb
            (ok (take (length buf_a - ra) (content_a a), fills_a.next (length buf_a - ra) a))
            (ok (take (length buf_b - rb) (content_b b), fills_b.next (length buf_b - rb) b))
  unfolding rounds
  step fuel buf_a buf_b ra rb a b =
      rw (fills_a.read-ok (length buf_a - ra) a, fills_b.read-ok (length buf_b - rb) b) refl

  -- A round with nothing left over from the one before.
  fresh_step :
      (fuel : ℕ) (buf_a buf_b : List ℕ) (a : A.State) (b : B.State)
      → length buf_a ≡ n
      → length buf_b ≡ n
      → rounds A B (suc fuel) buf_a buf_b 0 0 a b
        ≡ round A B
            (rounds A B fuel)
            buf_a
            buf_b
            0
            0
            (ok (take n (content_a a), fills_a.next n a))
            (ok (take n (content_b b), fills_b.next n b))
  fresh_step fuel buf_a buf_b a b ha hb =
      let room_a : length buf_a - 0 ≡ n = omega (arith, ha) in
      let room_b : length buf_b - 0 ≡ n = omega (arith, hb) in
      rw (step fuel buf_a buf_b 0 0 a b, room_a, room_b) refl

  -- One side is at its end, and the other has bytes left over.
  a_ends :
      (fuel : ℕ) (buf_a buf_b : List ℕ) (rb : ℕ) (a : A.State) (b : B.State)
      → content_a a ≡ []
      → 0 < rb
      → 0 < fuel
      → rounds A B fuel buf_a buf_b 0 rb a b ≡ some (ok false)
  unfolding min
  a_ends zero buf_a buf_b rb a b e h pos = absurd (omega arith)
  a_ends (suc fuel) buf_a buf_b rb a b e h pos =
      let room = length buf_a - 0 in
      let ys = take (length buf_b - rb) (content_b b) in
      let nothing : take room (content_a a) ≡ [] = ap (take room) e ∙ take-nil room in
      rw (step fuel buf_a buf_b 0 rb a b, nothing)
        (round_done A B (rounds A B fuel) buf_a buf_b 0 rb [] ys (fills_a.next room a)
            (fills_b.next (length buf_b - rb) b) (ground arith)
          ∙ ap (λ t. some (ok t)) (test_of_ne (0 + 0) (length ys + rb) (λ p. omega (arith, p))))

  b_ends :
      (fuel : ℕ) (buf_a buf_b : List ℕ) (ra : ℕ) (a : A.State) (b : B.State)
      → content_b b ≡ []
      → 0 < ra
      → 0 < fuel
      → rounds A B fuel buf_a buf_b ra 0 a b ≡ some (ok false)
  unfolding min
  b_ends zero buf_a buf_b ra a b e h pos = absurd (omega arith)
  b_ends (suc fuel) buf_a buf_b ra a b e h pos =
      let room = length buf_b - 0 in
      let xs = take (length buf_a - ra) (content_a a) in
      let nothing : take room (content_b b) ≡ [] = ap (take room) e ∙ take-nil room in
      rw (step fuel buf_a buf_b ra 0 a b, nothing)
        (round_done A B (rounds A B fuel) buf_a buf_b ra 0 xs []
            (fills_a.next (length buf_a - ra) a) (fills_b.next room b) (ground arith)
          ∙ ap (λ t. some (ok t)) (test_of_ne (length xs + ra) (0 + 0) (λ p. omega (arith, p))))

  sides : (x y : ℕ) → (x + 0 ≡ x) × (y + 0 ≡ y)
  sides x y = (omega arith, omega arith)

  first_bytes :
      (m : ℕ) (buf content : List ℕ)
      → m ≤ length (take n content)
      → take m (copy_at 0 (take n content) buf) ≡ take m content
  first_bytes m buf content h =
      take-copy_at m (take n content) buf h
      ∙ take-take m n content (omega (arith, h, length-take_le n content))

  -- What follows a round in which the pieces agree: they are equally long, or one side has ended.
  goes_on :
      (fuel : ℕ) (next_a next_b : List ℕ) (a : A.State) (b : B.State)
      → 0 < fuel
      → let lx = length (take n (content_a a)) in
        let ly = length (take n (content_b b)) in
        let m = min (lx + 0) (ly + 0) in
        let a' = fills_a.next n a in
        let b' = fills_b.next n b in
        take m (content_a a) ≡ take m (content_b b)
        → rounds A B fuel next_a next_b 0 0 a' b' ≡ some (ok (content_a a' == content_b b'))
        → rounds A B fuel next_a next_b (lx + 0 - m) (ly + 0 - m) a' b'
          ≡ some (ok (content_a a == content_b b))
  goes_on fuel next_a next_b a b pos agree later =
      let ca = content_a a in
      let cb = content_b b in
      let lx = length (take n ca) in
      let ly = length (take n cb) in
      let m = min (lx + 0) (ly + 0) in
      elim (lt-cases lx ly) [
        | inl less ↦
            let least : m ≡ lx + 0 = min_eq (lx + 0) (ly + 0) (omega arith) in
            let empty : lx + 0 - m ≡ 0 = omega (arith, least) in
            rw empty (
              a_ends fuel next_a next_b (ly + 0 - m) (fills_a.next n a) (fills_b.next n b)
                (fills_a.content-next n a
                  ∙ drop-nil_of_short n ca (omega (arith, less, length-take_le n cb)))
                (omega (arith, least, less)) pos)
            ∙ ap (λ t. some (ok t)) (sym (chunks_uneven n ca cb (λ p. omega (arith, p))))
        | inr (inl more) ↦
            let least : m ≡ ly + 0 = min_eq_right (lx + 0) (ly + 0) (omega arith) in
            let empty : ly + 0 - m ≡ 0 = omega (arith, least) in
            rw empty (
              b_ends fuel next_a next_b (lx + 0 - m) (fills_a.next n a) (fills_b.next n b)
                (fills_b.content-next n b
                  ∙ drop-nil_of_short n cb (omega (arith, more, length-take_le n ca)))
                (omega (arith, least, more)) pos)
            ∙ ap (λ t. some (ok t)) (sym (chunks_uneven n ca cb (λ p. omega (arith, p))))
        | inr (inr level) ↦
            let least : m ≡ lx + 0 = min_eq (lx + 0) (ly + 0) (omega (arith, level)) in
            let left_a : lx + 0 - m ≡ 0 = omega (arith, least) in
            let left_b : ly + 0 - m ≡ 0 = omega (arith, least, level) in
            let same_rest : (content_a (fills_a.next n a) == content_b (fills_b.next n b))
                ≡ (ca == cb) =
              rw (fills_a.content-next n a, fills_b.content-next n b)
                (chunks_agree n ca cb m (omega (arith, least)) level agree) in
            rw (left_a, left_b) later ∙ ap (λ t. some (ok t)) same_rest
      ]

  full :
      (fuel : ℕ) (buf_a buf_b : List ℕ) (a : A.State) (b : B.State)
      → length buf_a ≡ n
      → length buf_b ≡ n
      → length (content_a a) + 1 < fuel
      → rounds A B fuel buf_a buf_b 0 0 a b ≡ some (ok (content_a a == content_b b))
  full zero buf_a buf_b a b ha hb h = absurd (omega (arith, h))
  full (suc fuel) buf_a buf_b a b ha hb h =
      let xs = take n (content_a a) in
      let ys = take n (content_b b) in
      let m = min (length xs + 0) (length ys + 0) in
      let a' = fills_a.next n a in
      let b' = fills_b.next n b in
      let (ea, eb) = sides (length xs) (length ys) in
      let (below_a, below_b) = min_le (length xs + 0) (length ys + 0) in
      let ta : take m (copy_at 0 xs buf_a) ≡ take m (content_a a) =
        first_bytes m buf_a (content_a a) (omega (arith, below_a)) in
      let tb : take m (copy_at 0 ys buf_b) ≡ take m (content_b b) =
        first_bytes m buf_b (content_b b) (omega (arith, below_b)) in
      let again = rounds A B fuel in
      fresh_step fuel buf_a buf_b a b ha hb ∙ elim (eq-cases m 0) [
        | inl done ↦
            round_done A B again buf_a buf_b 0 0 xs ys a' b' done
            ∙ ap (λ t. some (ok t))
                (rw (ea, eb) (chunks_nil k (content_a a) (content_b b) (rw (← ea, ← eb) done)))
        | inr more ↦ elim (eq-cases (take m (copy_at 0 xs buf_a)) (take m (copy_at 0 ys buf_b))) [
          | inr differ ↦
              round_differs A B again buf_a buf_b 0 0 xs ys a' b' more differ
              ∙ ap (λ t. some (ok t))
                  (sym
                    (chunks_differ n (content_a a) (content_b b) m (λ p. differ (ta ∙ p ∙ sym tb))))
          | inl same ↦
              let some_left : 0 < m = ne_pos m more in
              let later =
                full fuel (copy_at 0 xs buf_a) (copy_at 0 ys buf_b) a' b'
                  (length-copy_at_start xs buf_a (omega (arith, ha, length-take_le n (content_a a)))
                    ∙ ha)
                  (length-copy_at_start ys buf_b (omega (arith, hb, length-take_le n (content_b b)))
                    ∙ hb)
                  (rw (fills_a.content-next n a) (
                    omega (
                      arith,
                      h,
                      drop_shorter k (content_a a) (omega (arith, below_a, some_left)),
                    ))) in
              round_goes_on A B again buf_a buf_b 0 0 xs ys a' b' more same
              ∙ goes_on fuel (copy_at 0 xs buf_a) (copy_at 0 ys buf_b) a b (omega (arith, h))
                  (sym ta ∙ same ∙ tb) later
        ]
      ]

-- With two readers each of whose reads delivers as much as there is room for while content is left,
-- and none of which fails, `is_content_equal` ends and answers whether the contents are equal. (The
-- fuel is larger than the first content by at least two.)
pub is_content_equal-full :
    {E : Type 0} (A B : AsyncRead E) {content_a : A.State → List ℕ} {content_b : B.State → List ℕ}
    → Fills A content_a
    → Fills B content_b
    → (fuel : ℕ) (a : A.State) (b : B.State) → length (content_a a) + 1 < fuel
    → is_content_equal A B fuel a b ≡ some (ok (content_a a == content_b b))
unfolding is_content_equal
is_content_equal-full A B fills_a fills_b fuel a b h =
    full A B fills_a fills_b 4095 fuel (zeros 4096) (zeros 4096) a b (length-zeros 4096)
      (length-zeros 4096) h
