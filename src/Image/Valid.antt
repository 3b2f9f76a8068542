-- ===== src/Image/Valid.antt =====
-- Images and the memory: each image owns a share of its allocation, and nothing else does.
use pilatus.Base.{
  ℕ, ◌+◌, ◌^◌, ◌≤◌, ◌<◌, ◌≡◌, refl, ap, ◌∙◌, true, false, ◌||◌, Option, none, some, List, [], ◌∷◌,
  ◌++◌, ◌==◌, nat_eq, inl, inr, Bool-cases, arith, eq_of_test, eq_refl, All, All-map, length,
}
use pilatus.HashMap
use pilatus.HashMap.{HashMap}
use pilatus.Image.Defs.{Factory, vec_factory, arc_factory, Cell, Heap, GenericImage, len}
use pilatus.Image.Memory.{view, viewed, owners, strong, once}

abbrev pub HasChannels : ℕ → Type 0
HasChannels channels = (channels == 1 || channels == 3 || channels == 4) ≡ true

module _ {T : Type 0} where
  -- How many images have their buffer at the address.
  abbrev pub count : ℕ → List (GenericImage × List T) → ℕ
  count q [] = 0
  count q ((image, content) ∷ images) = once (image.ptr == q) + count q images

  pub viewed-some :
      (o : Option (Cell T)) (k : Factory) (content : List T)
      → viewed o ≡ some (k, content)
      → (cell : Cell T) × (o ≡ some cell)
  viewed-some none k content h = absurd (cc h)
  viewed-some (some cell) k content h = (cell, refl)

  pub strong_of_none : (p : ℕ) (heap : Heap T) → view p heap ≡ none → strong p heap ≡ 0
  strong_of_none p heap h = go (HashMap.get p heap.cells) h
    where
      go : (o : Option (Cell T)) → viewed o ≡ none → owners o ≡ 0
      go none e = refl
      go (some cell) e = absurd (cc e)

  count-middle :
      (q : ℕ) (before : List (GenericImage × List T)) (g : GenericImage × List T)
      (after : List (GenericImage × List T))
      → count q (before ++ g ∷ after) ≡ count q (g ∷ (before ++ after))
  count-middle q [] g after = refl
  count-middle q (b ∷ before) g after = omega (arith, count-middle q before g after)

  -- New addresses are free, none is 0, and an allocation has an owner, that of a `Vec` just one.
  abbrev pub IsTidy : Heap T → Type 0
  IsTidy heap =
      ((q : ℕ) → heap.next ≤ q → view q heap ≡ none)
      × (view 0 heap ≡ none)
      × (1 ≤ heap.next)
      × ((q : ℕ) (k : Factory) (content : List T)
          → view q heap ≡ some (k, content)
          → (1 ≤ strong q heap) × (k ≡ vec_factory → strong q heap ≡ 1))

  -- The images of a world, each with the content that it should have.
  module _ (channels : ℕ) where
    abbrev pub HasSize : GenericImage → List T → Type 0
    HasSize image content =
        (length content ≡ len channels image)
        × (len channels image < 2 ^ 32)
        × (image.vtable ≡ arc_factory → image.generic_field ≡ length content)

    abbrev pub IsSound : Heap T → GenericImage × List T → Type 0
    IsSound heap (image, content) =
        (view image.ptr heap ≡ some (image.vtable, content)) × HasSize image content

    -- Each image finds its content, and each allocation has as many owners as it has images.
    abbrev pub IsValid : Heap T → List (GenericImage × List T) → Type 0
    IsValid heap images =
        All (IsSound heap) images × ((q : ℕ) → strong q heap ≡ count q images) × IsTidy heap

    -- What happens to one address leaves the images at other addresses alone.
    pub frame :
        (q : ℕ) (heap heap' : Heap T) (images : List (GenericImage × List T))
        → count q images ≡ 0
        → ((p : ℕ) → (q == p) ≡ false → view p heap' ≡ view p heap)
        → All (IsSound heap) images
        → All (IsSound heap') images
    frame q heap heap' [] c same h = tt
    frame q heap heap' ((image, content) ∷ images) c same ((found, size), h) = (
      (
        same image.ptr (elim (Bool-cases (q == image.ptr)) [
          | inl t ↦ absurd (here (eq_of_test q image.ptr t))
          | inr f ↦ f
        ])
            ∙ found,
        size,
      ),
      frame q heap heap' images (omega (arith, c)) same h,
    )
      where
        here : q ≡ image.ptr → ⊥
        here e =
            let t : (image.ptr == q) ≡ true = ap (λ x. image.ptr == x) e ∙ eq_refl image.ptr in
            let one : once (image.ptr == q) ≡ 1 = ap once t in omega (arith, c)

    pub same_views :
        (heap heap' : Heap T) (images : List (GenericImage × List T))
        → ((p : ℕ) → view p heap' ≡ view p heap)
        → All (IsSound heap) images
        → All (IsSound heap') images
    same_views heap heap' images same h = All-map (λ g k. (same g.0.ptr ∙ k.0, k.1)) images h

    All-middle :
        (heap : Heap T) (before : List (GenericImage × List T)) (g : GenericImage × List T)
        (after : List (GenericImage × List T))
        → All (IsSound heap) (before ++ g ∷ after)
        → All (IsSound heap) (g ∷ (before ++ after))
    All-middle heap [] g after h = h
    All-middle heap (b ∷ before) g after (p, h) =
        let (k, rest) = All-middle heap before g after h in (k, (p, rest))

    -- The order of the images does not matter.
    pub to_front :
        (heap : Heap T) (before : List (GenericImage × List T)) (g : GenericImage × List T)
        (after : List (GenericImage × List T))
        → IsValid heap (before ++ g ∷ after)
        → IsValid heap (g ∷ (before ++ after))
    to_front heap before g after (sound, counts, rest) =
        (All-middle heap before g after sound, λ q. counts q ∙ count-middle q before g after, rest)
