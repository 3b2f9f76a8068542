-- ===== src/Image/Defs.antt =====
-- pilatus-engineering/src/image/mod.rs: `GenericImage` and its buffers. The memory is a store from
-- addresses to allocations; arithmetic on `u32` wraps, as it does in a release build.
use pilatus.Base.{
  ℕ, ◌+◌, ◌-◌, ◌*◌, ◌%◌, ◌^◌, ◌||◌, Option, none, some, List, [], ◌++◌, if◌then◌else◌, ◌==◌, nat_eq,
  length, leb, take, drop,
}
use pilatus.HashMap
use pilatus.HashMap.{HashMap, map_option}

-- Which vtable an image has, and which kind of allocation its buffer is.
pub data Factory : Type 0 where
  vec_factory arc_factory : Factory

-- The buffer of a `Vec`, or of an `Arc` with the number of its owners.
pub record Cell (T : Type 0) : Type 0 where
  pub kind : Factory
  pub strong : ℕ
  pub content : List T

pub record Heap (T : Type 0) : Type 0 where
  pub cells : HashMap ℕ (Cell T)
  pub next : ℕ

pub record GenericImage : Type 0 where
  pub ptr : ℕ
  pub width : ℕ
  pub height : ℕ
  pub vtable : Factory
  -- `data`: the capacity of a `Vec`, the length of an `Arc`
  pub generic_field : ℕ

-- `width * height * CHANNELS as u32`
unfoldable pub size_u32 : ℕ → ℕ → ℕ → ℕ
size_u32 channels width height = (width * height) % 2 ^ 32 * channels % 2 ^ 32

unfoldable pub len : ℕ → GenericImage → ℕ
len channels image = image.width * image.height * channels

-- `assert!(matches!(CHANNELS, 1 | 3 | 4))`; `none` where it panics.
unfoldable pub new_with_vtable : ℕ → ℕ → ℕ → ℕ → Factory → ℕ → Option GenericImage
new_with_vtable channels buf width height vtable generic_field =
    if channels == 1 || channels == 3 || channels == 4
    then some (record {
      ptr = buf;
      width = width;
      height = height;
      vtable = vtable;
      generic_field = generic_field;
    })
    else none

module _ {T : Type 0} where
  abbrev pub empty_heap : Heap T
  empty_heap = record { cells = []; next = 1 }

  unfoldable pub allocate : Factory → List T → Heap T → Heap T
  allocate kind content heap = record {
    cells =
        HashMap.insert heap.next (record { kind = kind; strong = 1; content = content }) heap.cells;
    next = heap.next + 1;
  }

  abbrev pub raised : Cell T → Cell T
  raised cell = record cell { strong = cell.strong + 1 }

  abbrev pub lowered : Cell T → Cell T
  lowered cell = record cell { strong = cell.strong - 1 }

  abbrev pub rewritten : (List T → List T) → Cell T → Cell T
  rewritten f cell = record cell { content = f cell.content }

  -- `Arc::clone`
  unfoldable pub retain : ℕ → Heap T → Heap T
  retain p heap = record heap { cells = HashMap.modify p raised heap.cells }

  abbrev pub release_cell : ℕ → Heap T → Option (Cell T) → Option (Heap T)
  release_cell p heap none = none
  release_cell p heap (some cell) =
      if cell.strong == 1
      then some (record heap { cells = HashMap.remove p heap.cells })
      else some (record heap { cells = HashMap.modify p lowered heap.cells })

  -- `Drop` of an `Arc` or a `Vec`; `none` where nothing stands at the address.
  unfoldable pub release : ℕ → Heap T → Option (Heap T)
  release p heap = release_cell p heap (HashMap.get p heap.cells)

  unfoldable pub write : ℕ → (List T → List T) → Heap T → Heap T
  write p f heap = record heap { cells = HashMap.modify p (rewritten f) heap.cells }

  -- A slice of the allocation; `none` where it reaches beyond the allocation.
  abbrev pub slice : ℕ → Option (Cell T) → Option (List T)
  slice n none = none
  slice n (some cell) = if leb n (length cell.content) then some (take n cell.content) else none

  unfoldable pub buffer : ℕ → GenericImage → Heap T → Option (List T)
  buffer channels image heap = slice (len channels image) (HashMap.get image.ptr heap.cells)

  abbrev pub with_heap {ℓ} : {A : Type ℓ} → Heap T → Option A → Option (A × Heap T)
  with_heap heap none = none
  with_heap heap (some image) = some (image, heap)

  -- The `Vec` has `capacity` beside its elements.
  unfoldable pub new_vec : ℕ → List T → ℕ → ℕ → ℕ → Heap T → Option (GenericImage × Heap T)
  new_vec channels input capacity width height heap =
      if length input % 2 ^ 32 == size_u32 channels width height
      then with_heap (allocate vec_factory input heap)
          (new_with_vtable channels heap.next width height vec_factory capacity)
      else none

  abbrev pub arc_image : ℕ → ℕ → ℕ → ℕ → Option (Cell T) → Option GenericImage
  arc_image channels input width height none = none
  arc_image channels input width height (some cell) =
      if length cell.content % 2 ^ 32 == size_u32 channels width height
      then new_with_vtable channels input width height arc_factory (length cell.content)
      else none

  -- The `Arc` stands at the address `input`, and its owner is now the image.
  unfoldable pub new_arc : ℕ → ℕ → ℕ → ℕ → Heap T → Option (GenericImage × Heap T)
  new_arc channels input width height heap =
      with_heap heap (arc_image channels input width height (HashMap.get input heap.cells))

  -- An `Arc` from a slice.
  unfoldable pub new_from : ℕ → List T → ℕ → ℕ → Heap T → Option (GenericImage × Heap T)
  new_from channels input width height heap =
      new_arc channels heap.next width height (allocate arc_factory input heap)

  abbrev pub from_buffer : ℕ → ℕ → ℕ → Heap T → Option (List T) → Option (GenericImage × Heap T)
  from_buffer channels width height heap none = none
  from_buffer channels width height heap (some input) = new_from channels input width height heap

  unfoldable pub clone_slice : ℕ → GenericImage → Heap T → Option (GenericImage × Heap T)
  clone_slice channels image heap =
      from_buffer channels image.width image.height heap (buffer channels image heap)

  unfoldable pub clone_arc : ℕ → GenericImage → Heap T → Option (GenericImage × Heap T)
  clone_arc channels image heap =
      new_arc channels image.ptr image.width image.height (retain image.ptr heap)

  -- `Clone`
  abbrev pub clone_with : Factory → ℕ → GenericImage → Heap T → Option (GenericImage × Heap T)
  clone_with vec_factory channels image heap = clone_slice channels image heap
  clone_with arc_factory channels image heap = clone_arc channels image heap

  unfoldable pub clone : ℕ → GenericImage → Heap T → Option (GenericImage × Heap T)
  clone channels image heap = clone_with image.vtable channels image heap

  abbrev pub moved : GenericImage → ℕ → Option (Heap T) → Option ((GenericImage × ℕ) × Heap T)
  moved image p none = none
  moved image p (some heap) = some ((record image { ptr = p }, image.generic_field), heap)

  abbrev pub unique_arc :
      GenericImage → Heap T → Option (Cell T) → Option ((GenericImage × ℕ) × Heap T)
  unique_arc image heap none = none
  unique_arc image heap (some cell) =
      if cell.strong == 1
      then some ((image, image.generic_field), heap)
      else moved image heap.next
          (release image.ptr (allocate arc_factory (take image.generic_field cell.content) heap))

  abbrev pub make_mut_with :
      Factory → ℕ → GenericImage → Heap T → Option ((GenericImage × ℕ) × Heap T)
  make_mut_with vec_factory channels image heap = some ((image, len channels image), heap)
  make_mut_with arc_factory channels image heap =
      unique_arc image heap (HashMap.get image.ptr heap.cells)

  -- The image after the call, with the length of the slice.
  unfoldable pub make_mut : ℕ → GenericImage → Heap T → Option ((GenericImage × ℕ) × Heap T)
  make_mut channels image heap = make_mut_with image.vtable channels image heap

  -- `f` on the first `n` elements.
  abbrev pub overwrite : ℕ → (List T → List T) → List T → List T
  overwrite n f content = f (take n content) ++ drop n content

  abbrev pub written :
      (List T → List T) → Option ((GenericImage × ℕ) × Heap T) → Option (GenericImage × Heap T)
  written f none = none
  written f (some ((image, n), heap)) = some (image, write image.ptr (overwrite n f) heap)

  -- What the caller writes through the slice of `make_mut`.
  unfoldable pub edit :
      ℕ → (List T → List T) → GenericImage → Heap T → Option (GenericImage × Heap T)
  edit channels f image heap = written f (make_mut channels image heap)

  -- `Drop`: `clear_arc` gives the allocation back, and so does `clear_vec` for elements of one byte. (For
  -- larger ones it names a wrong layout to the allocator, on which the allocator may do anything.)
  unfoldable pub drop_image : GenericImage → Heap T → Option (Heap T)
  drop_image image heap = if image.ptr == 0 then some heap else release image.ptr heap

  abbrev pub taken : Option (List T) → Option (Heap T) → Option (List T × Heap T)
  taken none after = none
  taken (some content) none = none
  taken (some content) (some after) = some (content, after)

  abbrev pub given_up : Factory → GenericImage → Heap T → Option (Heap T)
  given_up vec_factory image heap = release image.ptr heap
  given_up arc_factory image heap = drop_image image heap

  -- `to_vec`: the buffer of a `Vec` leaves the image; that of an `Arc` is copied, and the image
  -- dropped.
  unfoldable pub to_vec : ℕ → GenericImage → Heap T → Option (List T × Heap T)
  to_vec channels image heap = taken (buffer channels image heap) (given_up image.vtable image heap)
