-- ===== src/Image/Tests.antt =====
-- An image of two by two pixels, its clone, and a write through the clone.
use pilatus.Base.{ℕ, ◌≡◌, refl, some, List, [], ◌∷◌, ◌++◌, All, length, arith, nat_eq}
use pilatus.HashMap
use pilatus.Image.Defs.{
  GenericImage, Heap, vec_factory, arc_factory, empty_heap, size_u32, len, new_with_vtable,
  allocate, retain, release, write, buffer, new_vec, new_arc, new_from, clone_slice, clone_arc,
  clone, make_mut, edit, drop_image, to_vec,
}
use pilatus.Image.Valid.{IsValid}
use pilatus.Image.Clone.{new_vec_lem}
use pilatus.Image.Steps.{
  World, new_world, created_vec, cloned, edited, Reach, here, next, reachable-buffer,
  reachable-total,
}
use pilatus.Image.Packing.{pack_loop, from_unpacked, into_packed, get_channels, interleaved}
use pilatus.Image.Channels.{into_packed_lem}

run : Unit {0}
unfolding HashMap.get HashMap.insert HashMap.remove HashMap.modify size_u32 len new_with_vtable
    allocate retain release write buffer new_vec new_arc new_from clone_slice clone_arc clone
    make_mut edit drop_image to_vec pack_loop from_unpacked into_packed get_channels
run = tt

abbrev four : List ℕ
four = 1 ∷ 2 ∷ 3 ∷ 4 ∷ []

abbrev original : GenericImage
original = record { ptr = 1; width = 2; height = 2; vtable = vec_factory; generic_field = 4 }

abbrev copy : GenericImage
copy = record { ptr = 2; width = 2; height = 2; vtable = arc_factory; generic_field = 4 }

-- What a caller writes: 9 into the first pixel.
abbrev nine : List ℕ → List ℕ
nine [] = []
nine (x ∷ xs) = 9 ∷ xs

abbrev last_heap : Heap ℕ
last_heap = record {
  cells =
      (1, record { kind = vec_factory; strong = 1; content = four })
      ∷ (2, record { kind = arc_factory; strong = 1; content = 9 ∷ 2 ∷ 3 ∷ 4 ∷ [] })
      ∷ [];
  next = 3;
}

abbrev last : World ℕ
last = record { heap = last_heap; images = (copy, 9 ∷ 2 ∷ 3 ∷ 4 ∷ []) ∷ (original, four) ∷ [] }

last-Reach : Reach 1 new_world last
unfolding run
last-Reach =
    next
      (next (next here (created_vec four 4 2 2 refl (omega arith) refl))
        (cloned [] [] original four refl))
      (edited [] ((original, four) ∷ []) copy four nine refl refl)

reachable-buffer_example : All (λ g. buffer 1 g.0 last.heap ≡ some g.1) last.images
reachable-buffer_example = reachable-buffer 1 refl last last-Reach

nine_keeps : length (nine four) ≡ length four
nine_keeps = refl

reachable-total_example :
    ((x : GenericImage × Heap ℕ) × (clone 1 original last_heap ≡ some x))
    × ((x : GenericImage × Heap ℕ) × (edit 1 nine original last_heap ≡ some x))
    × ((h : Heap ℕ) × (drop_image original last_heap ≡ some h))
    × ((h : Heap ℕ) × (to_vec 1 original last_heap ≡ some (four, h)))
reachable-total_example =
    reachable-total 1 refl last_heap ((copy, 9 ∷ 2 ∷ 3 ∷ 4 ∷ []) ∷ []) [] original four nine
      nine_keeps last-Reach

-- An image of 65536 by 65536 pixels with an empty buffer.
abbrev nothing : List ℕ
nothing = []

abbrev huge : GenericImage
huge = record { ptr = 1; width = 65536; height = 65536; vtable = vec_factory; generic_field = 0 }

huge_accepted :
    new_vec 1 nothing 0 65536 65536 empty_heap
    ≡ some (huge, allocate vec_factory nothing empty_heap)
unfolding run
huge_accepted = refl

abbrev no_images : List (GenericImage × List ℕ)
no_images = []

empty-IsValid : IsValid 3 empty_heap no_images
unfolding run
empty-IsValid = (tt, λ q. refl, (λ q above. refl, refl, omega arith, λ q k v h. absurd (cc h)))

abbrev unpacked : GenericImage
unpacked = record { ptr = 1; width = 2; height = 1; vtable = vec_factory; generic_field = 6 }

abbrev six : List ℕ
six = (1 ∷ 2 ∷ []) ++ ((3 ∷ 4 ∷ []) ++ (5 ∷ 6 ∷ []))

unpacked-IsValid : IsValid 3 (allocate vec_factory six empty_heap) ((unpacked, six) ∷ no_images)
unpacked-IsValid =
    (new_vec_lem 3 refl six 6 2 1 empty_heap no_images refl (omega arith) empty-IsValid).1

into_packed_lem_example :
    (get_channels unpacked (allocate vec_factory six empty_heap)
      ≡ some (1 ∷ 2 ∷ [], 3 ∷ 4 ∷ [], 5 ∷ 6 ∷ []))
    × (other : GenericImage) × (heap' : Heap ℕ) × (into_packed unpacked
          (allocate vec_factory six empty_heap)
        ≡ some (other, heap'))
    × IsValid 3 heap'
        ((other, interleaved (1 ∷ 2 ∷ []) (3 ∷ 4 ∷ []) (5 ∷ 6 ∷ [])) ∷ (unpacked, six) ∷ no_images)
into_packed_lem_example =
    into_packed_lem (1 ∷ 2 ∷ []) (3 ∷ 4 ∷ []) (5 ∷ 6 ∷ []) unpacked
      (allocate vec_factory six empty_heap) no_images refl refl refl unpacked-IsValid
