-- ===== src/Image/Sizes.antt =====
-- Which buffers the constructors take for an image of a size.
use pilatus.Base.{
  ℕ, ◌*◌, ◌%◌, ◌^◌, ◌≡◌, ◌<◌, ◌↔◌, ◌⊎◌, refl, ap, ◌∙◌, sym, subst, true, ◌||◌, none, some, List,
  ◌==◌, nat_eq, length, leb, arith, inl, inr, Bool-cases, eq_of_test, leb→le,
}
use pilatus.HashMap.{get-insert_self}
use pilatus.Image.Defs.{
  vec_factory, Heap, Cell, GenericImage, size_u32, len, new_with_vtable, allocate, with_heap,
  new_vec, buffer, slice,
}
use pilatus.Image.Valid.{HasChannels}
use pilatus.Image.Share.{new_with_vtable_ok, image_of, cell_of}

channels-cases :
    (channels : ℕ) → HasChannels channels → (channels ≡ 1) ⊎ ((channels ≡ 3) ⊎ (channels ≡ 4))
channels-cases channels h = elim (Bool-cases (channels == 1)) [
  | inl t ↦ inl (eq_of_test channels 1 t)
  | inr f ↦ elim (Bool-cases (channels == 3)) [
    | inl t ↦ inr (inl (eq_of_test channels 3 t))
    | inr g ↦ inr (inr (eq_of_test channels 4 (ground (arith, h, f, g))))
  ]
]

-- The size that the constructors compare with is the true one, modulo 2 ^ 32.
size_u32-mod :
    (channels width height : ℕ)
    → HasChannels channels
    → size_u32 channels width height ≡ width * height * channels % 2 ^ 32
unfolding size_u32
size_u32-mod channels width height h =
    let a = width * height in
    let wrapped : ℕ → Type 0 = λ c. a % 2 ^ 32 * c % 2 ^ 32 ≡ a * c % 2 ^ 32 in
    elim (channels-cases channels h) [
      | inl e ↦ subst wrapped (sym e) (omega arith)
      | inr (inl e) ↦ subst wrapped (sym e) (omega arith)
      | inr (inr e) ↦ subst wrapped (sym e) (omega arith)
    ]

module _ {T : Type 0} where
  new_vec-test :
      (channels : ℕ) (input : List T) (capacity width height : ℕ) (heap : Heap T)
      (x : GenericImage × Heap T)
      → new_vec channels input capacity width height heap ≡ some x
      → HasChannels channels × ((length input % 2 ^ 32 == size_u32 channels width height) ≡ true)
  unfolding new_vec new_with_vtable
  new_vec-test channels input capacity width height heap x h =
      elim (Bool-cases (length input % 2 ^ 32 == size_u32 channels width height)) [
        | inl same ↦ elim (Bool-cases (channels == 1 || channels == 3 || channels == 4)) [
          | inl allowed ↦ (allowed, same)
          | inr other ↦ absurd (cc (rw (same, other) at h))
        ]
        | inr different ↦ absurd (cc (rw different at h))
      ]

  new_vec-ok :
      (channels : ℕ) (input : List T) (capacity width height : ℕ) (heap : Heap T)
      → HasChannels channels
      → (length input % 2 ^ 32 == size_u32 channels width height) ≡ true
      → new_vec channels input capacity width height heap
        ≡ some
            (image_of heap.next width height vec_factory capacity, allocate vec_factory input heap)
  unfolding new_vec
  new_vec-ok channels input capacity width height heap allowed same = rw same (
      ap (with_heap (allocate vec_factory input heap))
        (new_with_vtable_ok channels heap.next width height vec_factory capacity allowed))

  -- `new_vec` accepts a buffer exactly if there are 1, 3 or 4 channels and the length of the buffer
  -- agrees with `width * height * CHANNELS` modulo 2 ^ 32.
  pub new_vec_iff :
      (channels : ℕ) (input : List T) (capacity width height : ℕ) (heap : Heap T)
      → ((x : GenericImage × Heap T) × (new_vec channels input capacity width height heap ≡ some x))
        ↔ (HasChannels channels × (length input % 2 ^ 32 ≡ width * height * channels % 2 ^ 32))
  new_vec_iff channels input capacity width height heap = (
    λ (x, h).
        let (allowed, same) = new_vec-test channels input capacity width height heap x h in
        (allowed, eq_of_test _ _ same ∙ size_u32-mod channels width height allowed),
    λ (allowed, size). (
      _,
      new_vec-ok channels input capacity width height heap allowed
          ((nat_eq.eq_iff _ _).1 (size ∙ sym (size_u32-mod channels width height allowed))),
    ),
  )

  slice-none : (n : ℕ) (cell : Cell T) → (slice n (some cell) ≡ none) ↔ (length cell.content < n)
  slice-none n cell = elim (Bool-cases (leb n (length cell.content))) [
    | inl fits ↦
        let enough = leb→le n (length cell.content) fits in
        (λ h. absurd (cc (rw (slice, fits) at h)), λ less. absurd (omega (arith, enough)))
    | inr beyond ↦ (λ h. ground (arith, beyond), λ less. rw (slice, beyond) refl)
  ]

  buffer-new_vec :
      (channels : ℕ) (input : List T) (capacity width height : ℕ) (heap : Heap T)
      → (buffer channels
            (image_of heap.next width height vec_factory capacity)
            (allocate vec_factory input heap)
          ≡ none)
        ↔ (length input < width * height * channels)
  unfolding buffer len allocate
  buffer-new_vec channels input capacity width height heap =
      let n = width * height * channels in
      subst (λ o. (slice n o ≡ none) ↔ (length input < n))
        (sym (get-insert_self heap.next (cell_of vec_factory 1 input) heap.cells))
        (slice-none n (cell_of vec_factory 1 input))

  -- An image that `new_vec` has made reads beyond its allocation exactly if the buffer it was made
  -- of has fewer elements than `width * height * CHANNELS`.
  pub new_vec-buffer :
      (channels : ℕ) (input : List T) (capacity width height : ℕ) (heap heap' : Heap T)
      (image : GenericImage)
      → new_vec channels input capacity width height heap ≡ some (image, heap')
      → (buffer channels image heap' ≡ none) ↔ (length input < width * height * channels)
  new_vec-buffer channels input capacity width height heap heap' image h =
      let (allowed, same) =
        new_vec-test channels input capacity width height heap (image, heap') h in
      let made = new_vec-ok channels input capacity width height heap allowed same in
      let pair : ◌≡◌ {A = GenericImage × Heap T}
          (image_of heap.next width height vec_factory capacity, allocate vec_factory input heap)
          (image, heap') =
        cc (sym made ∙ h) in
      subst (λ x. (buffer channels x.0 x.1 ≡ none) ↔ (length input < width * height * channels))
        pair (buffer-new_vec channels input capacity width height heap)
