-- ===== src/Image/Packing.antt =====
-- pilatus-engineering/src/image/mod.rs: images of three channels, pixel by pixel (packed) and channel
-- by channel (unpacked).
use pilatus.Base.{
  ℕ, zero, suc, ◌+◌, ◌*◌, ◌%◌, ◌^◌, ◌&&◌, Option, none, some, List, [], ◌∷◌, if◌then◌else◌, ◌==◌,
  nat_eq, length, leb, get_elem?, take, drop,
}
use pilatus.HashMap
use pilatus.HashMap.{map_option}
use pilatus.Image.Defs.{Cell, GenericImage, Heap, new_from, buffer}

-- A write at an index; `none` behind the end.
abbrev pub set? {ℓ} : {A : Type ℓ} → List A → ℕ → A → Option (List A)
set? [] k x = none
set? (y ∷ ys) zero x = some (x ∷ ys)
set? (y ∷ ys) (suc k) x = map_option (λ zs. y ∷ zs) (set? ys k x)

infixl 5 ◌>>=◌
abbrev pub ◌>>=◌ {ℓ κ} : {A : Type ℓ} {B : Type κ} → Option A → (A → Option B) → Option B
none >>= f = none
some a >>= f = f a

abbrev pub zeros : ℕ → List ℕ
zeros zero = []
zeros (suc n) = 0 ∷ zeros n

-- The loop of `from_unpacked`, from index `channel` on, for `n` more indices.
unfoldable pub pack_loop : ℕ → ℕ → ℕ → List ℕ → List ℕ → List ℕ → List ℕ → Option (List ℕ)
pack_loop zero channel next_write r g b write_buf = some write_buf
pack_loop (suc n) channel next_write r g b write_buf = get_elem? r channel >>= λ x.
    set? write_buf next_write x >>= λ buf1. get_elem? g channel >>= λ y.
    set? buf1 (next_write + 1) y >>= λ buf2. get_elem? b channel >>= λ z.
    set? buf2 (next_write + 2) z >>= λ buf3. pack_loop n (channel + 1) (next_write + 3) r g b buf3

unfoldable pub from_unpacked :
    List ℕ → List ℕ → List ℕ → ℕ → ℕ → Heap ℕ → Option (GenericImage × Heap ℕ)
from_unpacked r g b width height heap =
    if width * height == length r && width * height == length g && width * height == length b
    then (pack_loop (width * height) 0 0 r g b (zeros (width * height * 3)) >>= λ write_buf.
        new_from 3 write_buf width height heap)
    else none

-- `split_at`; `none` where it panics.
abbrev pub split_at : ℕ → List ℕ → Option (List ℕ × List ℕ)
split_at n xs = if leb n (length xs) then some (take n xs, drop n xs) else none

-- `from_raw_parts` from an offset on.
abbrev pub raw_parts : ℕ → ℕ → List ℕ → Option (List ℕ)
raw_parts offset n content =
    if leb (offset + n) (length content) then some (take n (drop offset content)) else none

abbrev pub channels_of : ℕ → Option (Cell ℕ) → Option (List ℕ × List ℕ × List ℕ)
channels_of offset none = none
channels_of offset (some cell) = raw_parts 0 offset cell.content >>= λ r.
    raw_parts offset offset cell.content >>= λ g.
    raw_parts (offset * 2) offset cell.content >>= λ b. some (r, g, b)

unfoldable pub get_channels : GenericImage → Heap ℕ → Option (List ℕ × List ℕ × List ℕ)
get_channels image heap =
    channels_of (image.width * image.height % 2 ^ 32) (HashMap.get image.ptr heap.cells)

-- `UnpackedGenericImage::into_packed`. That `self` gives up its share of the image is left to the caller.
unfoldable pub into_packed : GenericImage → Heap ℕ → Option (GenericImage × Heap ℕ)
into_packed image heap =
    let area = image.width * image.height % 2 ^ 32 in
    buffer 3 image heap >>= λ content. split_at area content >>= λ p.
    split_at area p.1 >>= λ q. from_unpacked p.0 q.0 q.1 image.width image.height heap

-- `From<&GenericImage<u8, 1>>`
abbrev pub tripled : List ℕ → List ℕ
tripled [] = []
tripled (i ∷ rest) = i ∷ i ∷ i ∷ tripled rest

unfoldable pub from_luma : GenericImage → Heap ℕ → Option (GenericImage × Heap ℕ)
from_luma image heap =
    buffer 1 image heap >>= λ content. new_from 3 (tripled content) image.width image.height heap

-- The reference: one pixel after the other.
abbrev pub interleaved : List ℕ → List ℕ → List ℕ → List ℕ
interleaved (x ∷ r) (y ∷ g) (z ∷ b) = x ∷ y ∷ z ∷ interleaved r g b
interleaved _ _ _ = []
