-- ===== src/Image/Memory.antt =====
-- What the operations on the memory do to each allocation: its owners, and its kind and content.
use pilatus.Base.{
  ℕ, ◌+◌, ◌≡◌, refl, ap, ◌∙◌, sym, Bool, true, false, Option, none, some, List, if◌then◌else◌, ◌==◌,
  nat_eq, arith, eq_of_test,
}
use pilatus.HashMap
use pilatus.HashMap.{
  HashMap, map_option, get-insert, get-modify, get-remove, get-modify, get-remove_self,
}
use pilatus.Image.Defs.{Factory, Cell, Heap, allocate, retain, write, raised, rewritten}

abbrev pub once : Bool → ℕ
once true = 1
once false = 0

module _ {T : Type 0} where
  abbrev pub viewed : Option (Cell T) → Option (Factory × List T)
  viewed none = none
  viewed (some cell) = some (cell.kind, cell.content)

  abbrev pub owners : Option (Cell T) → ℕ
  owners none = 0
  owners (some cell) = cell.strong

  abbrev pub view : ℕ → Heap T → Option (Factory × List T)
  view p heap = viewed (HashMap.get p heap.cells)

  abbrev pub strong : ℕ → Heap T → ℕ
  strong p heap = owners (HashMap.get p heap.cells)

  pub view-allocate :
      (k : Factory) (content : List T) (heap : Heap T) (q : ℕ)
      → view q (allocate k content heap)
        ≡ (if heap.next == q then some (k, content) else view q heap)
  unfolding allocate
  view-allocate k content heap q =
      let cell : Cell T = record { kind = k; strong = 1; content = content } in
      ap viewed (get-insert heap.next q cell heap.cells) ∙ go (heap.next == q)
    where
      go :
          (b : Bool)
          → viewed (
              if b
              then some (record { kind = k; strong = 1; content = content })
              else HashMap.get q heap.cells)
            ≡ (if b then some (k, content) else view q heap)
      go true = refl
      go false = refl

  pub strong-allocate :
      (k : Factory) (content : List T) (heap : Heap T) (q : ℕ)
      → strong q (allocate k content heap) ≡ (if heap.next == q then 1 else strong q heap)
  unfolding allocate
  strong-allocate k content heap q =
      let cell : Cell T = record { kind = k; strong = 1; content = content } in
      ap owners (get-insert heap.next q cell heap.cells) ∙ go (heap.next == q)
    where
      go :
          (b : Bool)
          → owners (
              if b
              then some (record { kind = k; strong = 1; content = content })
              else HashMap.get q heap.cells)
            ≡ (if b then 1 else strong q heap)
      go true = refl
      go false = refl

  pub view-retain : (p : ℕ) (heap : Heap T) (q : ℕ) → view q (retain p heap) ≡ view q heap
  unfolding retain
  view-retain p heap q =
      ap viewed (get-modify p q raised heap.cells) ∙ go (p == q) (HashMap.get q heap.cells)
    where
      go :
          (b : Bool) (o : Option (Cell T))
          → viewed (if b then map_option raised o else o) ≡ viewed o
      go true none = refl
      go true (some cell) = refl
      go false o = refl

  pub strong-retain :
      (p : ℕ) (heap : Heap T) (cell : Cell T) (q : ℕ)
      → HashMap.get p heap.cells ≡ some cell
      → strong q (retain p heap) ≡ once (p == q) + strong q heap
  unfolding retain
  strong-retain p heap cell q found =
      ap owners (get-modify p q raised heap.cells)
      ∙ go (p == q) (HashMap.get q heap.cells)
          (λ t. ap (λ x. HashMap.get x heap.cells) (sym (eq_of_test p q t)) ∙ found)
    where
      go :
          (b : Bool) (o : Option (Cell T))
          → (b ≡ true → o ≡ some cell)
          → owners (if b then map_option raised o else o) ≡ once b + owners o
      go true none h = absurd (cc (h refl))
      go true (some c) h = omega arith
      go false o h = omega arith

  pub view-write :
      (p : ℕ) (f : List T → List T) (heap : Heap T) (k : Factory) (content : List T) (q : ℕ)
      → view p heap ≡ some (k, content)
      → view q (write p f heap) ≡ (if p == q then some (k, f content) else view q heap)
  unfolding write
  view-write p f heap k content q found =
      ap viewed (get-modify p q (rewritten f) heap.cells)
      ∙ go (p == q) (HashMap.get q heap.cells)
          (λ t. ap (λ x. view x heap) (sym (eq_of_test p q t)) ∙ found)
    where
      go :
          (b : Bool) (o : Option (Cell T))
          → (b ≡ true → viewed o ≡ some (k, content))
          → viewed (if b then map_option (rewritten f) o else o)
            ≡ (if b then some (k, f content) else viewed o)
      go true none h = absurd (cc (h refl))
      go true (some c) h =
          let e : ◌≡◌ {A = Option (Factory × List T)} (some (c.kind, c.content))
              (some (k, content)) =
            h refl in
          ground arith
      go false o h = refl

  pub strong-write :
      (p : ℕ) (f : List T → List T) (heap : Heap T) (q : ℕ)
      → strong q (write p f heap) ≡ strong q heap
  unfolding write
  strong-write p f heap q =
      ap owners (get-modify p q (rewritten f) heap.cells) ∙ go (p == q) (HashMap.get q heap.cells)
    where
      go :
          (b : Bool) (o : Option (Cell T))
          → owners (if b then map_option (rewritten f) o else o) ≡ owners o
      go true none = refl
      go true (some c) = refl
      go false o = refl
