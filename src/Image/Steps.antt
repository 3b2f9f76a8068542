-- ===== src/Image/Steps.antt =====
-- Any sequence of operations on images: to its owner, each image is a buffer of its own.
use pilatus.Base.{
  ℕ, ◌*◌, ◌^◌, ◌<◌, ◌≡◌, refl, ◌∙◌, sym, subst, Option, some, List, [], ◌∷◌, ◌++◌, All, All-map,
  length, nat_eq, arith,
}
use pilatus.HashMap
use pilatus.Image.Defs.{
  GenericImage, Heap, empty_heap, new_vec, new_from, clone, edit, drop_image, to_vec, buffer,
}
use pilatus.Image.Valid.{HasChannels, IsValid, to_front}
use pilatus.Image.Transfer.{release-IsValid}
use pilatus.Image.Share.{buffer_lem}
use pilatus.Image.Clone.{new_vec_lem, new_from_lem, clone_lem, drop_lem}
use pilatus.Image.Edit.{edit_lem, to_vec_lem}

-- The memory and the images, each with the elements that its owner expects in it.
pub record World (T : Type 0) : Type 0 where
  pub heap : Heap T
  pub images : List (GenericImage × List T)

some_injective : {A : Type 0} {a b : A} → some a ≡ some b → a ≡ b
some_injective e = cc e

module _ {T : Type 0} where
  abbrev pub new_world : World T
  new_world = record { heap = empty_heap; images = [] }

  module _ (channels : ℕ) where
    -- An image is created for a buffer of its size, less than 2 ^ 32 elements. A write keeps the
    -- length of the slice.
    pub data Step : World T → World T → Type 0 where
      created_vec :
          {heap heap' : Heap T} {images : List (GenericImage × List T)} {image : GenericImage}
          (input : List T) (capacity width height : ℕ)
          → length input ≡ width * height * channels
          → width * height * channels < 2 ^ 32
          → new_vec channels input capacity width height heap ≡ some (image, heap')
          → Step
              (record { heap = heap; images = images })
              (record { heap = heap'; images = (image, input) ∷ images })
      created_arc :
          {heap heap' : Heap T} {images : List (GenericImage × List T)} {image : GenericImage}
          (input : List T) (width height : ℕ)
          → length input ≡ width * height * channels
          → width * height * channels < 2 ^ 32
          → new_from channels input width height heap ≡ some (image, heap')
          → Step
              (record { heap = heap; images = images })
              (record { heap = heap'; images = (image, input) ∷ images })
      cloned :
          {heap heap' : Heap T} {other : GenericImage} (before after : List (GenericImage × List T))
          (image : GenericImage) (content : List T)
          → clone channels image heap ≡ some (other, heap')
          → Step
              (record { heap = heap; images = before ++ (image, content) ∷ after })
              (record {
                heap = heap';
                images = (other, content) ∷ (image, content) ∷ (before ++ after);
              })
      edited :
          {heap heap' : Heap T} {other : GenericImage} (before after : List (GenericImage × List T))
          (image : GenericImage) (content : List T) (f : List T → List T)
          → length (f content) ≡ length content
          → edit channels f image heap ≡ some (other, heap')
          → Step
              (record { heap = heap; images = before ++ (image, content) ∷ after })
              (record { heap = heap'; images = (other, f content) ∷ (before ++ after) })
      dropped :
          {heap heap' : Heap T} (before after : List (GenericImage × List T)) (image : GenericImage)
          (content : List T)
          → drop_image image heap ≡ some heap'
          → Step
              (record { heap = heap; images = before ++ (image, content) ∷ after })
              (record { heap = heap'; images = before ++ after })
      unwrapped :
          {heap heap' : Heap T} (before after : List (GenericImage × List T)) (image : GenericImage)
          (content result : List T)
          → to_vec channels image heap ≡ some (result, heap')
          → Step
              (record { heap = heap; images = before ++ (image, content) ∷ after })
              (record { heap = heap'; images = before ++ after })

    pub data Reach (w : World T) : World T → Type 0 where
      here : Reach w w
      next : {u v : World T} → Reach w u → Step u v → Reach w v

    abbrev pub IsValidWorld : World T → Type 0
    IsValidWorld w = IsValid channels w.heap w.images

    module _ (allowed : HasChannels channels) where
      -- What an operation is proved to return is what it returned.
      returned :
          {heap : Heap T} (images : GenericImage → List (GenericImage × List T))
          {o : Option (GenericImage × Heap T)} {image other : GenericImage} {heap' : Heap T}
          → o ≡ some (other, heap')
          → o ≡ some (image, heap)
          → IsValid channels heap (images image)
          → IsValid channels heap' (images other)
      returned images e e' valid =
          subst (λ x. IsValid channels x.1 (images x.0)) (some_injective (sym e' ∙ e)) valid

      Step-IsValid : {w v : World T} → Step w v → IsValidWorld w → IsValidWorld v
      Step-IsValid (created_vec {heap} {images = images} input capacity width height size bound e)
            valid =
          let (e', after) =
            new_vec_lem channels allowed input capacity width height heap images size bound valid in
          returned (λ x. (x, input) ∷ images) e e' after
      Step-IsValid (created_arc {heap} {images = images} input width height size bound e) valid =
          let (e', after) =
            new_from_lem channels allowed input width height heap images size bound valid in
          returned (λ x. (x, input) ∷ images) e e' after
      Step-IsValid (cloned {heap} before after image content e) valid =
          let (other, heap', e', valid') =
            clone_lem channels allowed image content heap (before ++ after)
              (to_front channels heap before (image, content) after valid) in
          returned (λ x. (x, content) ∷ (image, content) ∷ (before ++ after)) e e' valid'
      Step-IsValid (edited {heap} before after image content f kept e) valid =
          let (other, heap', e', valid') =
            edit_lem channels allowed image f content heap (before ++ after) kept
              (to_front channels heap before (image, content) after valid) in
          returned (λ x. (x, f content) ∷ (before ++ after)) e e' valid'
      Step-IsValid (dropped {heap} before after image content e) valid =
          let front = to_front channels heap before (image, content) after valid in
          let (heap', e', address, valid') =
            release-IsValid channels image content heap (before ++ after) front in
          subst (λ h. IsValid channels h (before ++ after))
            (some_injective (sym (drop_lem channels allowed image content heap _ front ∙ e') ∙ e))
            valid'
      Step-IsValid (unwrapped {heap} before after image content result e) valid =
          let (heap', e', valid') =
            to_vec_lem channels allowed image content heap (before ++ after)
              (to_front channels heap before (image, content) after valid) in
          subst (λ x. IsValid channels x.1 (before ++ after)) (some_injective (sym e' ∙ e)) valid'

      pub Reach-IsValid : {w : World T} → Reach new_world w → IsValidWorld w
      unfolding HashMap.get
      Reach-IsValid here =
          (tt, λ q. refl, (λ q above. refl, refl, omega arith, λ q k v h. absurd (cc h)))
      Reach-IsValid (next r step) = Step-IsValid step (Reach-IsValid r)

      -- After any sequence of operations on images of less than 2 ^ 32 elements, created from
      -- buffers of their size, each image reads the elements that it was created with, or that its
      -- clone or the last write through itself left: a write through one image shows in no other.
      pub reachable-buffer :
          (w : World T)
          → Reach new_world w
          → All (λ g. buffer channels g.0 w.heap ≡ some g.1) w.images
      reachable-buffer w r =
          All-map (λ g sound. buffer_lem channels w.heap g.0 g.1 sound) w.images (Reach-IsValid r).0

      -- In a world that arose from operations on images of less than 2 ^ 32 elements, created from
      -- buffers of their size, no operation on an image fails: neither an assertion, nor an access
      -- to memory that is not there. `to_vec` returns the elements of the image.
      pub reachable-total :
          (heap : Heap T) (before after : List (GenericImage × List T)) (image : GenericImage)
          (content : List T) (f : List T → List T)
          → length (f content) ≡ length content
          → Reach new_world (record { heap = heap; images = before ++ (image, content) ∷ after })
          → ((x : GenericImage × Heap T) × (clone channels image heap ≡ some x))
            × ((x : GenericImage × Heap T) × (edit channels f image heap ≡ some x))
            × ((h : Heap T) × (drop_image image heap ≡ some h))
            × ((h : Heap T) × (to_vec channels image heap ≡ some (content, h)))
      reachable-total heap before after image content f kept r =
          let rest = before ++ after in
          let valid = to_front channels heap before (image, content) after (Reach-IsValid r) in
          let (a, b, cloning, va) = clone_lem channels allowed image content heap rest valid in
          let (c, d, editing, vb) =
            edit_lem channels allowed image f content heap rest kept valid in
          let (h, releasing, address, vc) =
            release-IsValid channels image content heap rest valid in
          let (k, unwrapping, vd) = to_vec_lem channels allowed image content heap rest valid in
          (
            ((a, b), cloning),
            ((c, d), editing),
            (h, drop_lem channels allowed image content heap rest valid ∙ releasing),
            (k, unwrapping),
          )
