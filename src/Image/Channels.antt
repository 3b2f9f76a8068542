-- ===== src/Image/Channels.antt =====
-- An unpacked image holds its three channels one after the other.
use native.Mathlib.Nat.{mod-eq_of_lt}
use pilatus.Base.{
  ℕ, ◌+◌, ◌*◌, ◌%◌, ◌^◌, ◌≡◌, ◌<◌, refl, ap, ◌∙◌, sym, true, some, List, [], ◌∷◌, ◌++◌, nat_eq,
  length, leb, arith, length-append, le→leb, append_assoc, append-nil, take, drop,
}
use pilatus.HashMap
use pilatus.HashMap.{HashMap}
use pilatus.Image.Defs.{Factory, GenericImage, Heap, len}
use pilatus.Image.Memory.{strong}
use pilatus.Image.Valid.{IsValid}
use pilatus.Image.Share.{buffer_lem, viewed_cell, cell_of}
use pilatus.Image.Packing.{
  ◌>>=◌, from_unpacked, split_at, into_packed, raw_parts, channels_of, get_channels, interleaved,
}
use pilatus.Image.Pixels.{bind_some, from_unpacked_lem}

take-append : (xs ys : List ℕ) → take (length xs) (xs ++ ys) ≡ xs
take-append [] ys = refl
take-append (x ∷ xs) ys = ap (λ zs. x ∷ zs) (take-append xs ys)

drop-append : (xs ys : List ℕ) → drop (length xs) (xs ++ ys) ≡ ys
drop-append [] ys = refl
drop-append (x ∷ xs) ys = drop-append xs ys

split_at_lem : (n : ℕ) (xs ys : List ℕ) → n ≡ length xs → split_at n (xs ++ ys) ≡ some (xs, ys)
split_at_lem n xs ys e =
    let fits : leb n (length (xs ++ ys)) ≡ true =
      le→leb n (length (xs ++ ys)) (omega (arith, e, length-append xs ys)) in
    rw fits (λ i. some (
      (ap (λ m. take m (xs ++ ys)) e ∙ take-append xs ys) i,
      (ap (λ m. drop m (xs ++ ys)) e ∙ drop-append xs ys) i,
    ))

raw_parts_lem :
    (offset n : ℕ) (before part after whole : List ℕ)
    → whole ≡ before ++ (part ++ after)
    → offset ≡ length before
    → n ≡ length part
    → raw_parts offset n whole ≡ some part
raw_parts_lem offset n before part after whole e eb ep =
    let fits : leb (offset + n) (length whole) ≡ true = le→leb (offset + n) (length whole) (
      omega (
        arith,
        eb,
        ep,
        ap length e,
        length-append before (part ++ after),
        length-append part after,
      )) in
    rw fits (
      ap some (
        ap (λ m. take n (drop m whole)) eb
        ∙ ap (λ l. take n (drop (length before) l)) e
        ∙ ap (take n) (drop-append before (part ++ after))
        ∙ ap (λ m. take m (part ++ after)) ep
        ∙ take-append part after))

channels_of_lem :
    (n : ℕ) (k : Factory) (owners : ℕ) (r g b : List ℕ)
    → n ≡ length r
    → n ≡ length g
    → n ≡ length b
    → channels_of n (some (cell_of k owners (r ++ (g ++ b)))) ≡ some (r, g, b)
channels_of_lem n k owners r g b hr hg hb =
    let twice : n * 2 ≡ length (r ++ g) = omega (arith, hr, hg, length-append r g) in
    let last : r ++ (g ++ b) ≡ (r ++ g) ++ (b ++ []) =
      sym (append_assoc r g b) ∙ ap (λ l. (r ++ g) ++ l) (sym (append-nil b)) in
    bind_some _ (raw_parts_lem 0 n [] r (g ++ b) (r ++ (g ++ b)) refl refl hr) (
      bind_some _ (raw_parts_lem n n r g b (r ++ (g ++ b)) refl hr hg)
        (bind_some _ (raw_parts_lem (n * 2) n (r ++ g) b [] (r ++ (g ++ b)) last twice hb) refl))

-- For an unpacked image of a valid memory, of fewer than 2 ^ 32 elements, with the channels `r`,
-- `g` and `b`: `get_channels` reads them, and `into_packed` makes a valid image that holds the same
-- pixels one after the other, and leaves the unpacked one as it is.
pub into_packed_lem :
    (r g b : List ℕ) (image : GenericImage) (heap : Heap ℕ) (images : List (GenericImage × List ℕ))
    → image.width * image.height ≡ length r
    → image.width * image.height ≡ length g
    → image.width * image.height ≡ length b
    → IsValid 3 heap ((image, r ++ (g ++ b)) ∷ images)
    → (get_channels image heap ≡ some (r, g, b))
      × (other : GenericImage) × (heap' : Heap ℕ) × (into_packed image heap ≡ some (other, heap'))
      × IsValid 3 heap' ((other, interleaved r g b) ∷ (image, r ++ (g ++ b)) ∷ images)
unfolding into_packed get_channels len
into_packed_lem r g b image heap images hr hg hb valid =
    let ((found, size), sound) = valid.0 in
    let n = image.width * image.height in
    let bound : n * 3 < 2 ^ 32 = size.1 in
    let area : n % 2 ^ 32 ≡ n = mod-eq_of_lt (omega (arith, bound)) in
    let content : List ℕ = r ++ (g ++ b) in
    let (other, heap', e, valid') =
      from_unpacked_lem r g b image.width image.height heap ((image, content) ∷ images) hr hg hb
        bound valid in
    (
      ap (λ m. channels_of m (HashMap.get image.ptr heap.cells)) area
          ∙ ap (channels_of n)
              (viewed_cell (HashMap.get image.ptr heap.cells) image.vtable content found)
          ∙ channels_of_lem n image.vtable (strong image.ptr heap) r g b hr hg hb,
      other,
      heap',
      bind_some _ (buffer_lem 3 heap image content (found, size)) (
          ap
            (λ m. split_at m content >>= λ p.
              split_at m p.1 >>= λ q. from_unpacked p.0 q.0 q.1 image.width image.height heap)
            area
          ∙ bind_some _ (split_at_lem n r (g ++ b) hr) (bind_some _ (split_at_lem n g b hg) e)),
      valid',
    )
