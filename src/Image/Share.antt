-- ===== src/Image/Share.antt =====
-- Creating images, and reading their buffers.
use native.Mathlib.Nat.{mod-eq_of_lt}
use pilatus.Base.{
  ℕ, zero, suc, ◌*◌, ◌%◌, ◌^◌, ◌≤◌, ◌<◌, ◌≡◌, refl, ap, ◌∙◌, sym, true, Option, none, some, List,
  if◌then◌else◌, ◌==◌, nat_eq, arith, length, leb, le→leb, take, take_all,
}
use pilatus.HashMap
use pilatus.HashMap.{HashMap}
use pilatus.Image.Defs.{
  Factory, arc_factory, Cell, Heap, GenericImage, len, size_u32, new_with_vtable, slice, buffer,
  with_heap, arc_image, new_arc,
}
use pilatus.Image.Memory.{viewed, owners}
use pilatus.Image.Valid.{HasChannels, HasSize, IsSound}

area : (a channels : ℕ) → HasChannels channels → a ≤ a * channels
area a zero h = absurd (cc h)
area a (suc c) h = omega arith

-- Below 2 ^ 32 the size does not wrap.
size_u32-len :
    (channels : ℕ) (image : GenericImage)
    → HasChannels channels
    → len channels image < 2 ^ 32
    → size_u32 channels image.width image.height ≡ len channels image
unfolding size_u32 len
size_u32-len channels image h bound =
    let a = image.width * image.height in
    let small : a < 2 ^ 32 = omega (arith, area a channels h) in
    ap (λ n. n * channels % 2 ^ 32) (mod-eq_of_lt small) ∙ mod-eq_of_lt bound

pub new_with_vtable_ok :
    (channels buf width height : ℕ) (vtable : Factory) (generic_field : ℕ)
    → HasChannels channels
    → new_with_vtable channels buf width height vtable generic_field
      ≡ some (record {
        ptr = buf;
        width = width;
        height = height;
        vtable = vtable;
        generic_field = generic_field;
      })
unfolding new_with_vtable
new_with_vtable_ok channels buf width height vtable generic_field h = rw h refl

abbrev pub image_of : ℕ → ℕ → ℕ → Factory → ℕ → GenericImage
image_of p width height vtable field = record {
  ptr = p;
  width = width;
  height = height;
  vtable = vtable;
  generic_field = field;
}

module _ {T : Type 0} where
  abbrev pub cell_of : Factory → ℕ → List T → Cell T
  cell_of k owners content = record { kind = k; strong = owners; content = content }

  pub viewed_cell :
      (o : Option (Cell T)) (k : Factory) (content : List T)
      → viewed o ≡ some (k, content)
      → o ≡ some (cell_of k (owners o) content)
  viewed_cell none k content h = absurd (cc h)
  viewed_cell (some cell) k content h =
      let p : ◌≡◌ {A = Factory × List T} (cell.kind, cell.content) (k, content) = cc h in
      ap (λ x. some (cell_of x.0 cell.strong x.1)) p

  slice_all :
      (k : Factory) (owners n : ℕ) (content : List T)
      → length content ≡ n
      → slice n (some (cell_of k owners content)) ≡ some content
  slice_all k owners n content h =
      let fits : leb n (length content) ≡ true = le→leb n (length content) (omega (arith, h)) in
      rw (slice, fits) (ap (λ m. some (take m content)) (sym h) ∙ ap some (take_all content))

  pub buffer_lem :
      (channels : ℕ) (heap : Heap T) (image : GenericImage) (content : List T)
      → IsSound channels heap (image, content)
      → buffer channels image heap ≡ some content
  unfolding buffer
  buffer_lem channels heap image content (found, size) =
      let o = HashMap.get image.ptr heap.cells in
      ap (slice (len channels image)) (viewed_cell o image.vtable content found)
      ∙ slice_all image.vtable (owners o) (len channels image) content size.0

  module _ (channels : ℕ) (allowed : HasChannels channels) where
    pub size_test :
        (image : GenericImage) (content : List T)
        → HasSize channels image content
        → (length content % 2 ^ 32 == size_u32 channels image.width image.height) ≡ true
    size_test image content (size, bound, field) =
        let wrapped : length content % 2 ^ 32 ≡ len channels image =
          ap (λ n. n % 2 ^ 32) size ∙ mod-eq_of_lt bound in
        let e : length content % 2 ^ 32 ≡ size_u32 channels image.width image.height =
          wrapped ∙ sym (size_u32-len channels image allowed bound) in
        (nat_eq.eq_iff _ _).1 e

    pub new_arc_lem :
        (p : ℕ) (k : Factory) (owners : ℕ) (like : GenericImage) (content : List T) (heap : Heap T)
        → HashMap.get p heap.cells ≡ some (cell_of k owners content)
        → HasSize channels like content
        → new_arc channels p like.width like.height heap
          ≡ some (image_of p like.width like.height arc_factory (length content), heap)
    unfolding new_arc
    new_arc_lem p k owners like content heap found size =
        ap (λ o. with_heap heap (arc_image channels p like.width like.height o)) found
        ∙ ap
            (λ b. with_heap heap (
              if b
              then new_with_vtable channels p like.width like.height arc_factory (length content)
              else none))
            (size_test like content size)
        ∙ ap (with_heap heap) (
            new_with_vtable_ok channels p like.width like.height arc_factory (length content)
              allowed)
