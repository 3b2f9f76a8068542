-- ===== src/Image/Release.antt =====
-- Giving up a share of an allocation.
use pilatus.Base.{
  ℕ, ◌+◌, ◌≤◌, ◌≡◌, refl, ap, ◌∙◌, sym, Bool, true, false, ◌&&◌, Option, none, some, if◌then◌else◌,
  ◌==◌, nat_eq, inl, inr, Bool-cases, arith, eq_of_test,
}
use pilatus.HashMap
use pilatus.HashMap.{
  HashMap, map_option, get-insert, get-modify, get-remove, get-modify, get-remove_self,
}
use pilatus.Image.Defs.{Cell, Heap, release, release_cell, lowered}
use pilatus.Image.Memory.{viewed, owners, view, strong, once}

module _ {T : Type 0} where
  -- The last owner gives the allocation back; another one leaves it as it is.
  release_last :
      (p : ℕ) (heap : Heap T) (cell : Cell T)
      → HashMap.get p heap.cells ≡ some cell
      → (cell.strong == 1) ≡ true
      → release p heap ≡ some (record heap { cells = HashMap.remove p heap.cells })
  unfolding release
  release_last p heap cell found last = rw (found, release_cell, last) refl

  release_shared :
      (p : ℕ) (heap : Heap T) (cell : Cell T)
      → HashMap.get p heap.cells ≡ some cell
      → (cell.strong == 1) ≡ false
      → release p heap ≡ some (record heap { cells = HashMap.modify p lowered heap.cells })
  unfolding release
  release_shared p heap cell found more = rw (found, release_cell, more) refl

  -- The cell at `q` is the released one where `q` is its address.
  same_cell :
      (p : ℕ) (heap : Heap T) (cell : Cell T) (q : ℕ)
      → HashMap.get p heap.cells ≡ some cell
      → (p == q) ≡ true
      → HashMap.get q heap.cells ≡ some cell
  same_cell p heap cell q found t =
      ap (λ x. HashMap.get x heap.cells) (sym (eq_of_test p q t)) ∙ found

  strong-remove :
      (p : ℕ) (heap : Heap T) (cell : Cell T) (q : ℕ)
      → HashMap.get p heap.cells ≡ some cell
      → (cell.strong == 1) ≡ true
      → once (p == q) + owners (HashMap.get q (HashMap.remove p heap.cells)) ≡ strong q heap
  strong-remove p heap cell q found last =
      ap (λ o. once (p == q) + owners o) (get-remove p q heap.cells)
      ∙ go (p == q) (HashMap.get q heap.cells) (same_cell p heap cell q found)
    where
      go :
          (b : Bool) (o : Option (Cell T))
          → (b ≡ true → o ≡ some cell)
          → once b + owners (if b then none else o) ≡ owners o
      go true o h = ground (arith, ap owners (h refl), nat_eq.eq_iff cell.strong 1)
      go false o h = omega arith

  strong-lower :
      (p : ℕ) (heap : Heap T) (cell : Cell T) (q : ℕ)
      → HashMap.get p heap.cells ≡ some cell
      → 1 ≤ cell.strong
      → once (p == q) + owners (HashMap.get q (HashMap.modify p lowered heap.cells)) ≡ strong q heap
  strong-lower p heap cell q found more =
      ap (λ o. once (p == q) + owners o) (get-modify p q lowered heap.cells)
      ∙ go (p == q) (HashMap.get q heap.cells) (same_cell p heap cell q found)
    where
      go :
          (b : Bool) (o : Option (Cell T))
          → (b ≡ true → o ≡ some cell)
          → once b + owners (if b then map_option lowered o else o) ≡ owners o
      go true none h = absurd (cc (h refl))
      go true (some c) h = let e : c.strong ≡ cell.strong = ap owners (h refl) in omega arith
      go false o h = omega arith

  view-lower :
      (p : ℕ) (heap : Heap T) (q : ℕ)
      → viewed (HashMap.get q (HashMap.modify p lowered heap.cells)) ≡ view q heap
  view-lower p heap q =
      ap viewed (get-modify p q lowered heap.cells) ∙ go (p == q) (HashMap.get q heap.cells)
    where
      go :
          (b : Bool) (o : Option (Cell T))
          → viewed (if b then map_option lowered o else o) ≡ viewed o
      go true none = refl
      go true (some c) = refl
      go false o = refl

  view-remove :
      (p : ℕ) (heap : Heap T) (q : ℕ)
      → viewed (HashMap.get q (HashMap.remove p heap.cells))
        ≡ (if p == q then none else view q heap)
  view-remove p heap q = ap viewed (get-remove p q heap.cells) ∙ go (p == q)
    where
      go :
          (b : Bool)
          → viewed (if b then none else HashMap.get q heap.cells)
            ≡ (if b then none else view q heap)
      go true = refl
      go false = refl

  pub release_lem :
      (p : ℕ) (heap : Heap T) (cell : Cell T)
      → HashMap.get p heap.cells ≡ some cell
      → 1 ≤ cell.strong
      → (heap' : Heap T) × (release p heap ≡ some heap')
        × (heap'.next ≡ heap.next)
        × ((q : ℕ) → once (p == q) + strong q heap' ≡ strong q heap)
        × ((q : ℕ) → view q heap' ≡ (if p == q && cell.strong == 1 then none else view q heap))
  release_lem p heap cell found some_owner = elim (Bool-cases (cell.strong == 1)) [
    | inl last ↦ (
      record heap { cells = HashMap.remove p heap.cells },
      release_last p heap cell found last,
      refl,
      λ q. strong-remove p heap cell q found last,
      λ q. view-remove p heap q ∙ ground (arith, last),
    )
    | inr more ↦ (
      record heap { cells = HashMap.modify p lowered heap.cells },
      release_shared p heap cell found more,
      refl,
      λ q. strong-lower p heap cell q found some_owner,
      λ q. view-lower p heap q ∙ ground (arith, more),
    )
  ]
