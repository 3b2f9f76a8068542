-- ===== src/Base/Sort.antt =====
-- `sort_by_key`, a stable sort, and what it commutes with.
use mathlib.Core.List.{Permᴰ}
use pilatus.Base.{
  subst, suc, length, ℕ, ◌≡◌, refl, ap, ◌∙◌, ◌≢◌, ◌≤◌, Bool, List, [], ◌∷◌, ◌++◌, map, arith, inl,
  inr, leb, leb→le, if◌then◌else◌, Bool-cases, All, All-map, All-filter, filter,
}

module _ {ℓ} {A : Type ℓ} (f : A → ℕ) where
  unfoldable pub insert_sorted : A → List A → List A
  insert_sorted x [] = x ∷ []
  insert_sorted x (y ∷ ys) = if leb (f x) (f y) then x ∷ y ∷ ys else y ∷ insert_sorted x ys

  -- An element stands before those of the same key that follow it in the input.
  unfoldable pub sort_by_key : List A → List A
  unfolding insert_sorted
  sort_by_key [] = []
  sort_by_key (x ∷ xs) = insert_sorted x (sort_by_key xs)

  length-insert_sorted : (x : A) (s : List A) → length (insert_sorted x s) ≡ suc (length s)
  unfolding insert_sorted
  length-insert_sorted x [] = refl
  length-insert_sorted x (y ∷ ys) = ground (arith, length-insert_sorted x ys)

  pub length-sort_by_key : (s : List A) → length (sort_by_key s) ≡ length s
  unfolding sort_by_key
  length-sort_by_key [] = refl
  length-sort_by_key (x ∷ xs) =
      length-insert_sorted x (sort_by_key xs) ∙ ap suc (length-sort_by_key xs)

  abbrev pub IsSorted : List A → Type 0
  IsSorted [] = Unit
  IsSorted (x ∷ xs) = All (λ y. f x ≤ f y) xs × IsSorted xs

  -- No two elements have the same key.
  abbrev pub Distinct : List A → Type 0
  Distinct [] = Unit
  Distinct (x ∷ xs) = All (λ y. f x ≢ f y) xs × Distinct xs

  insert_sorted-All {κ} :
      (P : A → Type κ) (x : A) (s : List A) → P x → All P s → All P (insert_sorted x s)
  unfolding insert_sorted
  insert_sorted-All P x [] p h = (p, tt)
  insert_sorted-All P x (y ∷ ys) p (q, h) = elim (Bool-cases (leb (f x) (f y))) [
    | inl t ↦ rw t (p, (q, h))
    | inr t ↦ rw t (q, insert_sorted-All P x ys p h)
  ]

  pub sort_by_key-All {κ} : (P : A → Type κ) (s : List A) → All P s → All P (sort_by_key s)
  unfolding sort_by_key
  sort_by_key-All P [] h = tt
  sort_by_key-All P (x ∷ xs) (p, h) =
      insert_sorted-All P x (sort_by_key xs) p (sort_by_key-All P xs h)

  insert_sorted-IsSorted : (x : A) (s : List A) → IsSorted s → IsSorted (insert_sorted x s)
  unfolding insert_sorted
  insert_sorted-IsSorted x [] h = (tt, tt)
  insert_sorted-IsSorted x (y ∷ ys) (a, h) = elim (Bool-cases (leb (f x) (f y))) [
    | inl t ↦
        let le : f x ≤ f y = leb→le _ _ t in
        rw t ((le, All-map (λ z (q : f y ≤ f z). omega arith) ys a), (a, h))
    | inr t ↦ rw t (insert_sorted-All _ x ys (ground arith) a, insert_sorted-IsSorted x ys h)
  ]

  pub sort_by_key-IsSorted : (s : List A) → IsSorted (sort_by_key s)
  unfolding sort_by_key
  sort_by_key-IsSorted [] = tt
  sort_by_key-IsSorted (x ∷ xs) = insert_sorted-IsSorted x _ (sort_by_key-IsSorted xs)

  insert_sorted_front : (x : A) (s : List A) → All (λ y. f x ≤ f y) s → insert_sorted x s ≡ x ∷ s
  unfolding insert_sorted
  insert_sorted_front x [] h = refl
  insert_sorted_front x (y ∷ ys) (p, h) = ground arith

  insert_sorted-append :
      (x e : A) (s : List A)
      → f x ≤ f e
      → insert_sorted x (s ++ e ∷ []) ≡ insert_sorted x s ++ e ∷ []
  unfolding insert_sorted
  insert_sorted-append x e [] h = ground arith
  insert_sorted-append x e (y ∷ ys) h = ground (arith, insert_sorted-append x e ys h)

  -- An element with the greatest key comes last.
  pub sort_by_key-append :
      (s : List A) (e : A)
      → All (λ y. f y ≤ f e) s
      → sort_by_key (s ++ e ∷ []) ≡ sort_by_key s ++ e ∷ []
  unfolding sort_by_key
  sort_by_key-append [] e h = refl
  sort_by_key-append (x ∷ xs) e (p, h) =
      ap (insert_sorted x) (sort_by_key-append xs e h) ∙ insert_sorted-append x e (sort_by_key xs) p

  filter-insert_sorted :
      (p : A → Bool) (x : A) (s : List A)
      → IsSorted s
      → filter p (insert_sorted x s) ≡ (if p x then insert_sorted x (filter p s) else filter p s)
  unfolding insert_sorted
  filter-insert_sorted p x [] h = ground arith
  filter-insert_sorted p x (y ∷ ys) (a, h) = elim (Bool-cases (leb (f x) (f y))) [
    | inl t ↦
        let le : f x ≤ f y = leb→le _ _ t in
        let front : insert_sorted x (filter p ys) ≡ x ∷ filter p ys =
          insert_sorted_front x (filter p ys)
            (All-filter _ p ys (All-map (λ z (q : f y ≤ f z). omega arith) ys a)) in
        ground (arith, front)
    | inr t ↦ ground (arith, filter-insert_sorted p x ys h)
  ]

  pub sort_by_key-filter :
      (p : A → Bool) (s : List A) → sort_by_key (filter p s) ≡ filter p (sort_by_key s)
  unfolding sort_by_key
  sort_by_key-filter p [] = refl
  sort_by_key-filter p (x ∷ xs) = ground (
    arith,
    sort_by_key-filter p xs,
    filter-insert_sorted p x (sort_by_key xs) (sort_by_key-IsSorted xs),
  )

  insert_sorted_comm :
      (x y : A) (s : List A)
      → f x ≢ f y
      → insert_sorted x (insert_sorted y s) ≡ insert_sorted y (insert_sorted x s)
  unfolding insert_sorted
  insert_sorted_comm x y [] h = ground arith
  insert_sorted_comm x y (z ∷ zs) h = ground (arith, insert_sorted_comm x y zs h)

  pub Distinct-filter : (p : A → Bool) (s : List A) → Distinct s → Distinct (filter p s)
  Distinct-filter p [] h = tt
  Distinct-filter p (x ∷ xs) (n, h) = elim (Bool-cases (p x)) [
    | inl t ↦ rw t (All-filter _ p xs n, Distinct-filter p xs h)
    | inr t ↦ rw t (Distinct-filter p xs h)
  ]

  All-perm {κ} : (P : A → Type κ) {s t : List A} → Permᴰ s t → All P s → All P t
  All-perm P Permᴰ.nil h = tt
  All-perm P (Permᴰ.cons e d) (p, h) = (subst P e p, All-perm P d h)
  All-perm P (Permᴰ.swap e e') (p, (q, h)) = (subst P e' q, (subst P e p, h))
  All-perm P (Permᴰ.trans d d') h = All-perm P d' (All-perm P d h)

  pub Distinct-perm : {s t : List A} → Permᴰ s t → Distinct s → Distinct t
  Distinct-perm Permᴰ.nil h = tt
  Distinct-perm (Permᴰ.cons {a} {b} {l₂ = l} e d) (p, h) =
      (subst (λ x. All (λ y. f x ≢ f y) l) e (All-perm _ d p), Distinct-perm d h)
  Distinct-perm (Permᴰ.swap {a} {b} {l = l} e e') ((n, p), (q, h)) = (
    ((λ r. n (cc)), subst (λ x. All (λ y. f x ≢ f y) l) e' q),
    (subst (λ x. All (λ y. f x ≢ f y) l) e p, h),
  )
  Distinct-perm (Permᴰ.trans d d') h = Distinct-perm d' (Distinct-perm d h)

  -- With distinct keys the result does not depend on the order of the input.
  pub sort_by_key-perm : {s t : List A} → Permᴰ s t → Distinct s → sort_by_key s ≡ sort_by_key t
  unfolding sort_by_key
  sort_by_key-perm Permᴰ.nil h = refl
  sort_by_key-perm (Permᴰ.cons e d) (p, h) = λ i. insert_sorted (e i) (sort_by_key-perm d h i)
  sort_by_key-perm (Permᴰ.swap {a} {b} {l = l} e e') ((n, p), (q, h)) =
      insert_sorted_comm a b (sort_by_key l) n
      ∙ (λ i. insert_sorted (e' i) (insert_sorted (e i) (sort_by_key l)))
  sort_by_key-perm (Permᴰ.trans d d') h =
      sort_by_key-perm d h ∙ sort_by_key-perm d' (Distinct-perm d h)

-- Elements that are changed without a change of their relative order.
module _ {ℓ} {A : Type ℓ} (f : A → ℕ) (g : A → A) where
  abbrev pub Keeps : A → A → Type 0
  Keeps x y = leb (f (g x)) (f (g y)) ≡ leb (f x) (f y)

  map-insert_sorted :
      (x : A) (s : List A)
      → All (Keeps x) s
      → insert_sorted f (g x) (map g s) ≡ map g (insert_sorted f x s)
  unfolding insert_sorted
  map-insert_sorted x [] h = refl
  map-insert_sorted x (y ∷ ys) (p, h) = elim (Bool-cases (leb (f x) (f y))) [
    | inl t ↦ rw (p, t)
    | inr t ↦ rw (p, t, map-insert_sorted x ys h)
  ]

  abbrev pub KeepsOrder : List A → Type 0
  KeepsOrder [] = Unit
  KeepsOrder (x ∷ xs) = All (Keeps x) xs × KeepsOrder xs

  pub sort_by_key-map :
      (s : List A) → KeepsOrder s → sort_by_key f (map g s) ≡ map g (sort_by_key f s)
  unfolding sort_by_key
  sort_by_key-map [] h = refl
  sort_by_key-map (x ∷ xs) (p, h) =
      ap (insert_sorted f (g x)) (sort_by_key-map xs h)
      ∙ map-insert_sorted x (sort_by_key f xs) (sort_by_key-All f (Keeps x) xs p)
