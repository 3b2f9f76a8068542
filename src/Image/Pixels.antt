-- ===== src/Image/Pixels.antt =====
-- Packing keeps the pixels.
use pilatus.Base.{
  ℕ, zero, suc, ◌+◌, ◌*◌, ◌^◌, ◌≡◌, ◌<◌, refl, ap, ◌∙◌, sym, true, ◌&&◌, Option, some, List, [],
  ◌∷◌, ◌++◌, ◌==◌, nat_eq, length, arith, get_elem?, length-append,
}
use pilatus.HashMap.{map_option}
use pilatus.Image.Defs.{GenericImage, Heap}
use pilatus.Image.Valid.{IsValid}
use pilatus.Image.Clone.{new_from_lem}
use pilatus.Image.Packing.{set?, ◌>>=◌, zeros, pack_loop, from_unpacked, interleaved}

set?-at :
    (done rest : List ℕ) (y x : ℕ)
    → set? (done ++ y ∷ rest) (length done) x ≡ some ((done ++ x ∷ []) ++ rest)
set?-at [] rest y x = refl
set?-at (d ∷ done) rest y x = ap (map_option (λ zs. d ∷ zs)) (set?-at done rest y x)

get_elem?-at : (done rest : List ℕ) (x : ℕ) → get_elem? (done ++ x ∷ rest) (length done) ≡ some x
get_elem?-at [] rest x = refl
get_elem?-at (d ∷ done) rest x = get_elem?-at done rest x

length-snoc : (done : List ℕ) (x : ℕ) → length (done ++ x ∷ []) ≡ length done + 1
length-snoc done x = length-append done (x ∷ [])

snoc : (done rest : List ℕ) (x : ℕ) → done ++ x ∷ rest ≡ (done ++ x ∷ []) ++ rest
snoc [] rest x = refl
snoc (d ∷ done) rest x = ap (λ zs. d ∷ zs) (snoc done rest x)

-- One write of the loop.
write_step :
    (done rest : List ℕ) (y x next : ℕ)
    → next ≡ length done
    → set? (done ++ y ∷ rest) next x ≡ some ((done ++ x ∷ []) ++ rest)
write_step done rest y x next e = ap (λ n. set? (done ++ y ∷ rest) n x) e ∙ set?-at done rest y x

read_step :
    (before rest : List ℕ) (x channel : ℕ)
    → channel ≡ length before
    → get_elem? (before ++ x ∷ rest) channel ≡ some x
read_step before rest x channel e =
    ap (get_elem? (before ++ x ∷ rest)) e ∙ get_elem?-at before rest x

pub bind_some :
    {A B : Type 0} {m : Option A} {a : A} {o : Option B} (f : A → Option B)
    → m ≡ some a
    → f a ≡ o
    → (m >>= f) ≡ o
bind_some f e k = ap (λ x. x >>= f) e ∙ k

shifted :
    (n channel next : ℕ) (p q s r g b buf : List ℕ) (x y z : ℕ)
    → pack_loop n channel next (p ++ x ∷ r) (q ++ y ∷ g) (s ++ z ∷ b) buf
      ≡ pack_loop n channel next ((p ++ x ∷ []) ++ r) ((q ++ y ∷ []) ++ g) ((s ++ z ∷ []) ++ b) buf
shifted n channel next p q s r g b buf x y z =
    λ i. pack_loop n channel next (snoc p r x i) (snoc q g y i) (snoc s b z i) buf

pack_loop_lem :
    (n channel next : ℕ) (p q s done : List ℕ) (r g b : List ℕ)
    → channel ≡ length p
    → channel ≡ length q
    → channel ≡ length s
    → next ≡ length done
    → n ≡ length r
    → n ≡ length g
    → n ≡ length b
    → pack_loop n channel next (p ++ r) (q ++ g) (s ++ b) (done ++ zeros (n * 3))
      ≡ some (done ++ interleaved r g b)
unfolding pack_loop
pack_loop_lem zero channel next p q s done [] [] [] hp hq hs hd hr hg hb = refl
pack_loop_lem (suc n) channel next p q s done (x ∷ r) (y ∷ g) (z ∷ b) hp hq hs hd hr hg hb =
    let d1 : List ℕ = done ++ x ∷ [] in
    let d2 : List ℕ = d1 ++ y ∷ [] in
    let d3 : List ℕ = d2 ++ z ∷ [] in
    let rest : List ℕ = interleaved r g b in
    let more : suc n * 3 ≡ suc (suc (suc (n * 3))) = omega arith in
    let h1 : next + 1 ≡ length d1 = omega (arith, hd, length-snoc done x) in
    let h2 : next + 2 ≡ length d2 = omega (arith, h1, length-snoc d1 y) in
    let h3 : next + 3 ≡ length d3 = omega (arith, h2, length-snoc d2 z) in
    let ih =
      pack_loop_lem n (channel + 1) (next + 3) (p ++ x ∷ []) (q ++ y ∷ []) (s ++ z ∷ []) d3 r g b
        (omega (arith, hp, length-snoc p x)) (omega (arith, hq, length-snoc q y))
        (omega (arith, hs, length-snoc s z)) h3 (omega (arith, hr)) (omega (arith, hg))
        (omega (arith, hb)) in
    bind_some _ (read_step p r x channel hp) (
      bind_some _
        (ap (λ m. set? (done ++ zeros m) next x) more
          ∙ write_step done (0 ∷ 0 ∷ zeros (n * 3)) 0 x next hd)
        (bind_some _ (read_step q g y channel hq) (
          bind_some _ (write_step d1 (0 ∷ zeros (n * 3)) 0 y (next + 1) h1) (
            bind_some _ (read_step s b z channel hs) (
              bind_some _ (write_step d2 (zeros (n * 3)) 0 z (next + 2) h2) (
                shifted n (channel + 1) (next + 3) p q s r g b (d3 ++ zeros (n * 3)) x y z
                ∙ ih
                ∙ ap some
                    (sym (snoc done (y ∷ z ∷ rest) x ∙ snoc d1 (z ∷ rest) y ∙ snoc d2 rest z))))))))
pack_loop_lem _ channel next p q s done _ _ _ hp hq hs hd hr hg hb = absurd (omega arith)

length-interleaved :
    (r g b : List ℕ) (n : ℕ)
    → n ≡ length r
    → n ≡ length g
    → n ≡ length b
    → length (interleaved r g b) ≡ n * 3
length-interleaved [] [] [] n hr hg hb = omega arith
length-interleaved (x ∷ r) (y ∷ g) (z ∷ b) zero hr hg hb = absurd (omega arith)
length-interleaved (x ∷ r) (y ∷ g) (z ∷ b) (suc n) hr hg hb =
    omega (
      arith,
      length-interleaved r g b n (omega (arith, hr)) (omega (arith, hg)) (omega (arith, hb)),
    )
length-interleaved _ _ _ n hr hg hb = absurd (omega arith)

-- If the three channels have as many elements as the image has pixels, fewer than 2 ^ 32 in all,
-- `from_unpacked` succeeds, and its image holds the channels' elements of one pixel after the other.
pub from_unpacked_lem :
    (r g b : List ℕ) (width height : ℕ) (heap : Heap ℕ) (images : List (GenericImage × List ℕ))
    → width * height ≡ length r
    → width * height ≡ length g
    → width * height ≡ length b
    → width * height * 3 < 2 ^ 32
    → IsValid 3 heap images
    → (image : GenericImage) × (heap' : Heap ℕ) × (from_unpacked r g b width height heap
        ≡ some (image, heap'))
      × IsValid 3 heap' ((image, interleaved r g b) ∷ images)
unfolding from_unpacked
from_unpacked_lem r g b width height heap images hr hg hb bound valid =
    let size = length-interleaved r g b (width * height) hr hg hb in
    let (e, after) =
      new_from_lem 3 refl (interleaved r g b) width height heap images size bound valid in
    let tests : (width * height == length r
          && width * height == length g
          && width * height == length b)
        ≡ true =
      ground (
        arith,
        nat_eq.eq_iff (width * height) (length r),
        nat_eq.eq_iff (width * height) (length g),
        nat_eq.eq_iff (width * height) (length b),
      ) in
    (
      _,
      _,
      rw tests (
          bind_some _
            (pack_loop_lem (width * height) 0 0 [] [] [] [] r g b refl refl refl refl hr hg hb) e),
      after,
    )
