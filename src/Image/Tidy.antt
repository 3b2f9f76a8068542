-- ===== src/Image/Tidy.antt =====
-- The steps of the memory keep it tidy.
use pilatus.Base.{
  ℕ, ◌+◌, ◌≡◌, ap, ◌∙◌, sym, false, ◌&&◌, Option, none, some, List, if◌then◌else◌, ◌==◌, nat_eq,
  inl, inr, Bool-cases, arith, eq_of_test, ne_of_test,
}
use pilatus.HashMap
use pilatus.HashMap.{HashMap}
use pilatus.Image.Defs.{Factory, arc_factory, Cell, Heap, allocate, retain, write}
use pilatus.Image.Memory.{
  view, owners, strong, once, view-allocate, strong-allocate, view-retain, strong-retain,
  view-write, strong-write,
}
use pilatus.Image.Valid.{IsTidy}

module _ {T : Type 0} where
  pub allocate-IsTidy :
      (k : Factory) (content : List T) (heap : Heap T)
      → IsTidy heap
      → IsTidy (allocate k content heap)
  unfolding allocate
  allocate-IsTidy k content heap (fresh, null, positive, owned) = (
    λ q above. view-allocate k content heap q ∙ ground (arith, fresh q, nat_eq.eq_iff heap.next q),
    view-allocate k content heap 0 ∙ ground (arith, nat_eq.eq_iff heap.next 0),
    omega arith,
    λ q kind v found. elim (Bool-cases (heap.next == q)) [
      | inl t ↦
          let one : strong q (allocate k content heap) ≡ 1 =
            strong-allocate k content heap q ∙ ground (arith, t) in
          (omega arith, λ vec. one)
      | inr f ↦
          let same : strong q (allocate k content heap) ≡ strong q heap =
            strong-allocate k content heap q ∙ ground (arith, f) in
          let (one, alone) = owned q kind v (ground (arith, view-allocate k content heap q, f)) in
          (omega arith, λ vec. same ∙ alone vec)
    ],
  )

  pub retain-IsTidy :
      (p : ℕ) (content : List T) (heap : Heap T) (cell : Cell T)
      → view p heap ≡ some (arc_factory, content)
      → HashMap.get p heap.cells ≡ some cell
      → IsTidy heap
      → IsTidy (retain p heap)
  unfolding retain
  retain-IsTidy p content heap cell found here (fresh, null, positive, owned) = (
    λ q above. view-retain p heap q ∙ fresh q above,
    view-retain p heap 0 ∙ null,
    positive,
    λ q kind v k.
        let now = strong-retain p heap cell q here in
        let (one, alone) = owned q kind v (sym (view-retain p heap q) ∙ k) in
        elim (Bool-cases (p == q)) [
          | inl t ↦
              let e : ◌≡◌ {A = Option (Factory × List T)} (some (arc_factory, content))
                  (some (kind, v)) =
                sym found
                ∙ ap (λ x. view x heap) (eq_of_test p q t)
                ∙ sym (view-retain p heap q)
                ∙ k in
              (omega (arith, now), λ vec. absurd (cc (e, vec)))
          | inr f ↦
              let zero_more : once (p == q) ≡ 0 = ap once f in
              (omega (arith, now), λ vec. omega (arith, now, zero_more, alone vec))
        ],
  )

  pub release-IsTidy :
      (p : ℕ) (heap heap' : Heap T) (cell : Cell T)
      → HashMap.get p heap.cells ≡ some cell
      → heap'.next ≡ heap.next
      → ((q : ℕ) → once (p == q) + strong q heap' ≡ strong q heap)
      → ((q : ℕ) → view q heap' ≡ (if p == q && cell.strong == 1 then none else view q heap))
      → IsTidy heap
      → IsTidy heap'
  release-IsTidy p heap heap' cell here next strongs views (fresh, null, positive, owned) = (
    λ q above. views q ∙ ground (arith, fresh q, next),
    views 0 ∙ ground (arith, null),
    omega (arith, next),
    λ q kind v k. elim (Bool-cases (p == q)) [
      | inl t ↦ elim (Bool-cases (cell.strong == 1)) [
        | inl last ↦ absurd (ground (arith, views q, t, last, k))
        | inr more ↦
            let kept : view q heap ≡ some (kind, v) = ground (arith, views q, t, more, k) in
            let same : strong q heap ≡ cell.strong =
              ap owners (ap (λ x. HashMap.get x heap.cells) (sym (eq_of_test p q t)) ∙ here) in
            let (one, alone) = owned q kind v kept in
            let several = ne_of_test cell.strong 1 more in
            let taken : once (p == q) ≡ 1 = ap once t in
            (
              omega (arith, strongs q, same, one, several, taken),
              λ vec. absurd (several (sym same ∙ alone vec)),
            )
      ]
      | inr f ↦
          let kept : view q heap ≡ some (kind, v) = ground (arith, views q, f, k) in
          let (one, alone) = owned q kind v kept in
          let untouched : once (p == q) ≡ 0 = ap once f in
          (
            omega (arith, strongs q, one, untouched),
            λ vec. omega (arith, strongs q, untouched, alone vec),
          )
    ],
  )

  -- An allocation does not stand at a free address.
  taken :
      (p q : ℕ) (heap : Heap T) (found : Factory × List T)
      → view p heap ≡ some found
      → view q heap ≡ none
      → (p == q) ≡ false
  taken p q heap found here free = elim (Bool-cases (p == q)) [
    | inl t ↦ absurd (cc (sym here ∙ ap (λ x. view x heap) (eq_of_test p q t) ∙ free))
    | inr other ↦ other
  ]

  pub write-IsTidy :
      (p : ℕ) (f : List T → List T) (heap : Heap T) (k : Factory) (content : List T)
      → view p heap ≡ some (k, content)
      → strong p heap ≡ 1
      → IsTidy heap
      → IsTidy (write p f heap)
  unfolding write
  write-IsTidy p f heap k content found alone (fresh, null, positive, owned) =
      let views : (q : ℕ)
          → view q (write p f heap) ≡ (if p == q then some (k, f content) else view q heap) =
        λ q. view-write p f heap k content q found in
      (
        λ q above.
            let free = fresh q above in
            views q ∙ ground (arith, free, taken p q heap (k, content) found free),
        views 0 ∙ ground (arith, null, taken p 0 heap (k, content) found null),
        positive,
        λ q kind v h. elim (Bool-cases (p == q)) [
          | inl t ↦
              let one : strong q (write p f heap) ≡ 1 =
                strong-write p f heap q
                ∙ ap (λ x. strong x heap) (sym (eq_of_test p q t))
                ∙ alone in
              (omega (arith, one), λ vec. one)
          | inr other ↦
              let (some_owner, single) = owned q kind v (ground (arith, views q, other, h)) in
              (omega (arith, strong-write p f heap q), λ vec. strong-write p f heap q ∙ single vec)
        ],
      )
