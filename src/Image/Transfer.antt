-- ===== src/Image/Transfer.antt =====
-- The steps of the memory that the operations on images are made of keep the images valid.
use pilatus.Base.{
  ℕ, ◌+◌, ◌≤◌, ◌≡◌, ap, ◌∙◌, sym, subst, some, List, ◌∷◌, if◌then◌else◌, ◌==◌, nat_eq, inl, inr,
  Bool-cases, arith, eq_of_test, eq_refl, length,
}
use pilatus.HashMap
use pilatus.HashMap.{HashMap}
use pilatus.Image.Defs.{arc_factory, Heap, GenericImage, allocate, retain, release, write}
use pilatus.Image.Memory.{
  view, owners, strong, once, view-allocate, strong-allocate, view-retain, strong-retain,
  view-write, strong-write,
}
use pilatus.Image.Release.{release_lem}
use pilatus.Image.Valid.{count, viewed-some, strong_of_none, HasSize, IsValid, frame, same_views}
use pilatus.Image.Tidy.{allocate-IsTidy, retain-IsTidy, release-IsTidy, write-IsTidy}

module _ {T : Type 0} (channels : ℕ) where
  -- A new allocation for a new image.
  pub allocate-IsValid :
      (image : GenericImage) (content : List T) (heap : Heap T)
      (images : List (GenericImage × List T))
      → image.ptr ≡ heap.next
      → HasSize channels image content
      → IsValid channels heap images
      → IsValid channels (allocate image.vtable content heap) ((image, content) ∷ images)
  allocate-IsValid image content heap images at size (sound, counts, tidy) =
      let unowned = strong_of_none heap.next heap (tidy.0 heap.next (omega arith)) in
      let k = image.vtable in
      (
        (
          (
            view-allocate k content heap image.ptr
                ∙ ground (arith, nat_eq.eq_iff heap.next image.ptr),
            size,
          ),
          frame channels heap.next heap (allocate k content heap) images
              (sym (counts heap.next) ∙ unowned)
              (λ p f. view-allocate k content heap p ∙ ground (arith, f)) sound,
        ),
        λ q.
            strong-allocate k content heap q
            ∙ ground
                (arith, nat_eq.eq_iff heap.next q, nat_eq.eq_iff image.ptr q, counts q, unowned),
        allocate-IsTidy k content heap tidy,
      )

  -- One more image for a shared allocation.
  pub retain-IsValid :
      (image other : GenericImage) (content : List T) (heap : Heap T)
      (images : List (GenericImage × List T))
      → other.ptr ≡ image.ptr
      → other.vtable ≡ arc_factory
      → view image.ptr heap ≡ some (arc_factory, content)
      → HasSize channels other content
      → IsValid channels heap images
      → IsValid channels (retain image.ptr heap) ((other, content) ∷ images)
  retain-IsValid image other content heap images at arc found size (sound, counts, tidy) =
      let (cell, here) = viewed-some (HashMap.get image.ptr heap.cells) arc_factory content found in
      (
        (
          (
            ap (λ p. view p (retain image.ptr heap)) at
                ∙ view-retain image.ptr heap image.ptr
                ∙ found
                ∙ ap (λ k. some (k, content)) (sym arc),
            size,
          ),
          same_views channels heap (retain image.ptr heap) images (view-retain image.ptr heap)
              sound,
        ),
        λ q.
            strong-retain image.ptr heap cell q here
            ∙ ap (λ n. once (image.ptr == q) + n) (counts q)
            ∙ ap (λ p. once (p == q) + count q images) (sym at),
        retain-IsTidy image.ptr content heap cell found here tidy,
      )

  -- One image less.
  pub release-IsValid :
      (image : GenericImage) (content : List T) (heap : Heap T)
      (images : List (GenericImage × List T))
      → IsValid channels heap ((image, content) ∷ images)
      → (heap' : Heap T) × (release image.ptr heap ≡ some heap')
        × (heap'.next ≡ heap.next)
        × IsValid channels heap' images
  release-IsValid image content heap images (((found, size), sound), counts, tidy) =
      let (cell, here) =
        viewed-some (HashMap.get image.ptr heap.cells) image.vtable content found in
      let (fresh, null, positive, owned) = tidy in
      let some_owner : 1 ≤ cell.strong =
        subst (λ n. 1 ≤ n) (ap owners here) (owned image.ptr image.vtable content found).0 in
      let (heap', e, next, strongs, views) = release_lem image.ptr heap cell here some_owner in
      let mine : once (image.ptr == image.ptr) ≡ 1 = ap once (eq_refl image.ptr) in
      let owners_here : strong image.ptr heap ≡ cell.strong = ap owners here in
      let others : (q : ℕ) → strong q heap' ≡ count q images =
        λ q. omega (arith, strongs q, counts q) in
      (
        heap',
        e,
        next,
        (
          elim (Bool-cases (cell.strong == 1)) [
            | inl last ↦
                let alone : cell.strong ≡ 1 = eq_of_test cell.strong 1 last in
                frame channels image.ptr heap heap' images
                  (omega (arith, counts image.ptr, mine, owners_here, alone))
                  (λ p f. views p ∙ ground (arith, f)) sound
            | inr more ↦
                same_views channels heap heap' images (λ p. views p ∙ ground (arith, more)) sound
          ],
          others,
          release-IsTidy image.ptr heap heap' cell here next strongs views tidy,
        ),
      )

  -- A write into the allocation of an only owner.
  pub write-IsValid :
      (image : GenericImage) (f : List T → List T) (content : List T) (heap : Heap T)
      (images : List (GenericImage × List T))
      → strong image.ptr heap ≡ 1
      → length (f content) ≡ length content
      → IsValid channels heap ((image, content) ∷ images)
      → IsValid channels (write image.ptr f heap) ((image, f content) ∷ images)
  write-IsValid image f content heap images alone kept (((found, size), sound), counts, tidy) =
      let p = image.ptr in
      let views : (q : ℕ)
          → view q (write p f heap)
            ≡ (if p == q then some (image.vtable, f content) else view q heap) =
        λ q. view-write p f heap image.vtable content q found in
      let mine : once (p == p) ≡ 1 = ap once (eq_refl p) in
      let (size_now, bound, field) = size in
      (
        (
          (
            views p ∙ ground (arith, eq_refl p),
            (kept ∙ size_now, bound, λ arc. field arc ∙ sym kept),
          ),
          frame channels p heap (write p f heap) images (omega (arith, counts p, mine, alone))
              (λ q other. views q ∙ ground (arith, other)) sound,
        ),
        λ q. strong-write p f heap q ∙ counts q,
        write-IsTidy p f heap image.vtable content found alone tidy,
      )
