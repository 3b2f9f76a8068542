-- ===== src/Image/Clone.antt =====
-- Creating, dropping and cloning images: none fails on a valid image.
use pilatus.Base.{
  ℕ, ◌*◌, ◌^◌, ◌<◌, ◌≡◌, refl, ap, ◌∙◌, sym, none, some, List, ◌∷◌, if◌then◌else◌, ◌==◌, nat_eq,
  inl, inr, Bool-cases, eq_of_test, length,
}
use pilatus.HashMap
use pilatus.HashMap.{HashMap, get-insert_self}
use pilatus.Image.Defs.{
  Factory, vec_factory, arc_factory, Heap, GenericImage, len, new_with_vtable, allocate, retain,
  release, with_heap, new_vec, new_from, from_buffer, clone_slice, clone_arc, clone_with, clone,
  drop_image,
}
use pilatus.Image.Memory.{view, view-retain}
use pilatus.Image.Valid.{HasChannels, HasSize, IsValid}
use pilatus.Image.Transfer.{allocate-IsValid, retain-IsValid}
use pilatus.Image.Share.{
  new_with_vtable_ok, image_of, cell_of, viewed_cell, size_test, new_arc_lem, buffer_lem,
}

module _ {T : Type 0} (channels : ℕ) (allowed : HasChannels channels) where
  -- A new image for the content, from a `Vec`.
  pub new_vec_lem :
      (input : List T) (capacity width height : ℕ) (heap : Heap T)
      (images : List (GenericImage × List T))
      → length input ≡ width * height * channels
      → width * height * channels < 2 ^ 32
      → IsValid channels heap images
      → let image = image_of heap.next width height vec_factory capacity in
        (new_vec channels input capacity width height heap
          ≡ some (image, allocate vec_factory input heap))
        × IsValid channels (allocate vec_factory input heap) ((image, input) ∷ images)
  unfolding new_vec len
  new_vec_lem input capacity width height heap images size bound valid =
      let after = allocate vec_factory input heap in
      let image = image_of heap.next width height vec_factory capacity in
      let now : HasSize channels image input = (size, bound, λ arc. absurd (cc arc)) in
      (
        ap
              (λ b.
                if b
                then with_heap after
                    (new_with_vtable channels heap.next width height vec_factory capacity)
                else none)
              (size_test channels allowed image input now)
            ∙ ap (with_heap after)
                (new_with_vtable_ok channels heap.next width height vec_factory capacity allowed),
        allocate-IsValid channels image input heap images refl now valid,
      )

  -- A new image for the content, from an `Arc`.
  pub new_from_lem :
      (input : List T) (width height : ℕ) (heap : Heap T) (images : List (GenericImage × List T))
      → length input ≡ width * height * channels
      → width * height * channels < 2 ^ 32
      → IsValid channels heap images
      → let image = image_of heap.next width height arc_factory (length input) in
        (new_from channels input width height heap ≡ some (image, allocate arc_factory input heap))
        × IsValid channels (allocate arc_factory input heap) ((image, input) ∷ images)
  unfolding new_from allocate len
  new_from_lem input width height heap images size bound valid =
      let image = image_of heap.next width height arc_factory (length input) in
      let now : HasSize channels image input = (size, bound, λ arc. refl) in
      (
        new_arc_lem channels allowed heap.next arc_factory 1 image input
            (allocate arc_factory input heap)
            (get-insert_self heap.next (cell_of arc_factory 1 input) heap.cells) now,
        allocate-IsValid channels image input heap images refl now valid,
      )

  pub drop_lem :
      (image : GenericImage) (content : List T) (heap : Heap T)
      (images : List (GenericImage × List T))
      → IsValid channels heap ((image, content) ∷ images)
      → drop_image image heap ≡ release image.ptr heap
  unfolding drop_image
  drop_lem image content heap images (sound, counts, tidy) = elim (Bool-cases (image.ptr == 0)) [
    | inl t ↦
        absurd (cc (sym sound.0.0 ∙ ap (λ p. view p heap) (eq_of_test image.ptr 0 t) ∙ tidy.1))
    | inr f ↦ rw f refl
  ]

  -- A clone has the content of its image.
  pub clone_lem :
      (image : GenericImage) (content : List T) (heap : Heap T)
      (images : List (GenericImage × List T))
      → IsValid channels heap ((image, content) ∷ images)
      → (other : GenericImage) × (heap' : Heap T) × (clone channels image heap
          ≡ some (other, heap'))
        × IsValid channels heap' ((other, content) ∷ (image, content) ∷ images)
  unfolding clone clone_slice clone_arc len
  clone_lem image content heap images valid = go image.vtable refl
    where
      size : HasSize channels image content
      size = valid.0.0.1

      go :
          (k : Factory)
          → image.vtable ≡ k
          → (other : GenericImage) × (heap' : Heap T) × (clone channels image heap
              ≡ some (other, heap'))
            × IsValid channels heap' ((other, content) ∷ (image, content) ∷ images)
      go vec_factory vec =
          let (e, after) =
            new_from_lem content image.width image.height heap ((image, content) ∷ images) size.0
              size.1 valid in
          (
            _,
            _,
            ap (λ k. clone_with k channels image heap) vec
                ∙ ap (from_buffer channels image.width image.height heap)
                    (buffer_lem channels heap image content valid.0.0)
                ∙ e,
            after,
          )
      go arc_factory arc =
          let found = valid.0.0.0 in
          let shared : view image.ptr heap ≡ some (arc_factory, content) =
            found ∙ ap (λ k. some (k, content)) arc in
          let after = retain image.ptr heap in
          let other = image_of image.ptr image.width image.height arc_factory (length content) in
          let now : HasSize channels other content = (size.0, size.1, λ e. refl) in
          (
            other,
            after,
            ap (λ k. clone_with k channels image heap) arc
                ∙ new_arc_lem channels allowed image.ptr arc_factory _ other content after
                    (viewed_cell (HashMap.get image.ptr after.cells) arc_factory content
                      (view-retain image.ptr heap image.ptr ∙ shared))
                    now,
            retain-IsValid channels image other content heap ((image, content) ∷ images) refl refl
                shared now valid,
          )
