-- ===== src/Image/Edit.antt =====
-- Writing through an image, and taking its elements: each acts on that image alone.
use pilatus.Base.{
  ℕ, ◌≡◌, refl, ap, ◌∙◌, sym, subst, true, false, some, List, [], ◌∷◌, ◌++◌, if◌then◌else◌, ◌==◌,
  nat_eq, inl, inr, Bool-cases, arith, eq_of_test, eq_refl, length, append-nil, take, drop,
  take_all, drop_all,
}
use pilatus.HashMap
use pilatus.HashMap.{HashMap, get-insert_self}
use pilatus.Image.Defs.{
  Factory, vec_factory, arc_factory, Heap, GenericImage, len, allocate, release, write, moved,
  unique_arc, make_mut_with, make_mut, written, edit, drop_image, taken, given_up, to_vec,
  overwrite,
}
use pilatus.Image.Memory.{strong, once}
use pilatus.Image.Valid.{HasChannels, strong_of_none, IsSound, IsValid, to_front}
use pilatus.Image.Transfer.{allocate-IsValid, release-IsValid, write-IsValid}
use pilatus.Image.Share.{cell_of, viewed_cell, buffer_lem}
use pilatus.Image.Clone.{drop_lem}

module _ {T : Type 0} (channels : ℕ) (allowed : HasChannels channels) where
  overwritten :
      (f : List T → List T) (content : List T) (n : ℕ)
      → n ≡ length content
      → overwrite n f content ≡ f content
  overwritten f content n e =
      ap (λ m. overwrite m f content) e
      ∙ ap (λ c. f c ++ drop (length content) content) (take_all content)
      ∙ ap (λ c. f content ++ c) (drop_all content)
      ∙ append-nil (f content)

  write_alone :
      (image : GenericImage) (f : List T → List T) (content : List T) (n : ℕ) (heap : Heap T)
      (images : List (GenericImage × List T))
      → n ≡ length content
      → length (f content) ≡ length content
      → strong image.ptr heap ≡ 1
      → IsValid channels heap ((image, content) ∷ images)
      → IsValid channels (write image.ptr (overwrite n f) heap) ((image, f content) ∷ images)
  write_alone image f content n heap images e kept alone valid =
      let same = overwritten f content n e in
      subst (λ c. IsValid channels (write image.ptr (overwrite n f) heap) ((image, c) ∷ images))
        same
        (write-IsValid channels image (overwrite n f) content heap images alone
          (ap length same ∙ kept) valid)

  -- A shared image moves to a copy of its own.
  move_lem :
      (image : GenericImage) (content : List T) (heap : Heap T)
      (images : List (GenericImage × List T))
      → image.vtable ≡ arc_factory
      → IsValid channels heap ((image, content) ∷ images)
      → let other : GenericImage = record image { ptr = heap.next } in
        (heap' : Heap T) × (release image.ptr (allocate arc_factory content heap) ≡ some heap')
        × (strong heap.next heap' ≡ 1)
        × IsValid channels heap' ((other, content) ∷ images)
  unfolding len
  move_lem image content heap images arc valid =
      let other : GenericImage = record image { ptr = heap.next } in
      let (sound, counts, tidy) = valid in
      let after = allocate arc_factory content heap in
      let copied : IsValid channels after ((other, content) ∷ (image, content) ∷ images) =
        subst
          (λ k.
            IsValid channels (allocate k content heap)
              ((other, content) ∷ (image, content) ∷ images))
          arc
          (allocate-IsValid channels other content heap ((image, content) ∷ images) refl sound.0.1
            valid) in
      let (heap', e, next, valid') =
        release-IsValid channels image content after ((other, content) ∷ images)
          (to_front channels after ((other, content) ∷ []) (image, content) images copied) in
      let unowned = strong_of_none heap.next heap (tidy.0 heap.next (omega arith)) in
      let one : once (heap.next == heap.next) ≡ 1 = ap once (eq_refl heap.next) in
      (heap', e, omega (arith, valid'.1 heap.next, counts heap.next, unowned, one), valid')

  make_mut_vec :
      (image : GenericImage) (heap : Heap T)
      → image.vtable ≡ vec_factory
      → make_mut channels image heap ≡ some ((image, len channels image), heap)
  unfolding make_mut
  make_mut_vec image heap vec = ap (λ k. make_mut_with k channels image heap) vec

  make_mut_arc :
      (image : GenericImage) (content : List T) (heap : Heap T)
      → image.vtable ≡ arc_factory
      → IsSound channels heap (image, content)
      → make_mut channels image heap
        ≡ unique_arc image heap (some (cell_of arc_factory (strong image.ptr heap) content))
  unfolding make_mut
  make_mut_arc image content heap arc (found, size) =
      ap (λ k. make_mut_with k channels image heap) arc
      ∙ ap (unique_arc image heap) (
          viewed_cell (HashMap.get image.ptr heap.cells) arc_factory content
            (found ∙ ap (λ k. some (k, content)) arc))

  make_mut_shared :
      (image : GenericImage) (content : List T) (heap heap' : Heap T)
      → image.vtable ≡ arc_factory
      → (strong image.ptr heap == 1) ≡ false
      → IsSound channels heap (image, content)
      → release image.ptr (allocate arc_factory content heap) ≡ some heap'
      → make_mut channels image heap
        ≡ some ((record image { ptr = heap.next }, image.generic_field), heap')
  make_mut_shared image content heap heap' arc shared sound e =
      let whole : take image.generic_field content ≡ content =
        ap (λ n. take n content) (sound.1.2 arc) ∙ take_all content in
      make_mut_arc image content heap arc sound
      ∙ ap
          (λ b.
            if b
            then some ((image, image.generic_field), heap)
            else moved image heap.next
                (release image.ptr (allocate arc_factory (take image.generic_field content) heap)))
          shared
      ∙ ap (λ c. moved image heap.next (release image.ptr (allocate arc_factory c heap))) whole
      ∙ ap (moved image heap.next) e

  make_mut_unique :
      (image : GenericImage) (content : List T) (heap : Heap T)
      → image.vtable ≡ arc_factory
      → (strong image.ptr heap == 1) ≡ true
      → IsSound channels heap (image, content)
      → make_mut channels image heap ≡ some ((image, image.generic_field), heap)
  make_mut_unique image content heap arc alone sound =
      make_mut_arc image content heap arc sound
      ∙ ap
          (λ b.
            if b
            then some ((image, image.generic_field), heap)
            else moved image heap.next
                (release image.ptr (allocate arc_factory (take image.generic_field content) heap)))
          alone

  -- A write through `make_mut` changes the content of its image, and of no other.
  pub edit_lem :
      (image : GenericImage) (f : List T → List T) (content : List T) (heap : Heap T)
      (images : List (GenericImage × List T))
      → length (f content) ≡ length content
      → IsValid channels heap ((image, content) ∷ images)
      → (other : GenericImage) × (heap' : Heap T) × (edit channels f image heap
          ≡ some (other, heap'))
        × IsValid channels heap' ((other, f content) ∷ images)
  unfolding edit
  edit_lem image f content heap images kept valid = go image.vtable refl
    where
      sound : IsSound channels heap (image, content)
      sound = valid.0.0

      go :
          (k : Factory)
          → image.vtable ≡ k
          → (other : GenericImage) × (heap' : Heap T) × (edit channels f image heap
              ≡ some (other, heap'))
            × IsValid channels heap' ((other, f content) ∷ images)
      go vec_factory vec = (
        image,
        write image.ptr (overwrite (len channels image) f) heap,
        ap (written f) (make_mut_vec image heap vec),
        write_alone image f content (len channels image) heap images (sym sound.1.0) kept
            ((valid.2.3 image.ptr image.vtable content sound.0).1 vec) valid,
      )
      go arc_factory arc = elim (Bool-cases (strong image.ptr heap == 1)) [
        | inl alone ↦ (
          image,
          write image.ptr (overwrite image.generic_field f) heap,
          ap (written f) (make_mut_unique image content heap arc alone sound),
          write_alone image f content image.generic_field heap images (sound.1.2 arc) kept
              (eq_of_test (strong image.ptr heap) 1 alone) valid,
        )
        | inr shared ↦
            let (after, e, one, valid') = move_lem image content heap images arc valid in
            let other : GenericImage = record image { ptr = heap.next } in
            (
              other,
              write heap.next (overwrite image.generic_field f) after,
              ap (written f) (make_mut_shared image content heap after arc shared sound e),
              write_alone other f content image.generic_field after images (sound.1.2 arc) kept one
                  valid',
            )
      ]

  -- `to_vec` returns the content, and then the image is gone.
  pub to_vec_lem :
      (image : GenericImage) (content : List T) (heap : Heap T)
      (images : List (GenericImage × List T))
      → IsValid channels heap ((image, content) ∷ images)
      → (heap' : Heap T) × (to_vec channels image heap ≡ some (content, heap'))
        × IsValid channels heap' images
  unfolding to_vec
  to_vec_lem image content heap images valid =
      let (heap', e, next, valid') = release-IsValid channels image content heap images valid in
      (
        heap',
        ap (λ o. taken o (given_up image.vtable image heap))
              (buffer_lem channels heap image content valid.0.0)
            ∙ ap (taken (some content))
                (go image.vtable e (drop_lem channels allowed image content heap images valid ∙ e)),
        valid',
      )
    where
      go :
          {heap' : Heap T} (k : Factory)
          → release image.ptr heap ≡ some heap'
          → drop_image image heap ≡ some heap'
          → given_up k image heap ≡ some heap'
      go vec_factory e d = e
      go arc_factory e d = d
