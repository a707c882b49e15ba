-- ===== src/Network/Reader/Places.antt =====
-- What the loops of a `Reader` (share/network/reader.go) read where low bytes of a number stand.
use freya.Common.{
  ℕ, suc, ◌+◌, ◌^◌, ◌<◌, ◌≤◌, ◌≡◌, refl, Bool, false, none, if◌then◌else◌, ap, ◌∙◌, some, List, [],
  ◌∷◌, ◌++◌, length, get_or, length-append, le→ltb, arith,
}
use freya.Common.Signed.{ℤ}
use freya.Network.Reader.{Reader, read_places, read_signed, read_signed_lem}
use freya.Network.Writer.Contents.{length-low_bytes}
use freya.Network.Writer.{low_bytes}

get_or-append : (xs ys : List ℕ) (k : ℕ) → get_or (xs ++ ys) (length xs + k) 0 ≡ get_or ys k 0
get_or-append [] ys k = let e : 0 + k ≡ k = omega arith in ap (λ (n : ℕ). get_or ys n 0) e
get_or-append (x ∷ xs) ys k =
    let e : suc (length xs) + k ≡ suc (length xs + k) = omega arith in
    ap (λ (n : ℕ). get_or (x ∷ (xs ++ ys)) n 0) e ∙ get_or-append xs ys k

-- A reader that stands before `n` bytes, the low bytes of `p`.
abbrev pub Before : List ℕ → ℕ → ℕ → List ℕ → Reader → Type 0
Before pre n p post r = (r.buffer ≡ pre ++ (low_bytes n p ++ post)) × (r.index ≡ length pre)

byte-Before :
    (pre : List ℕ) (n p : ℕ) (post : List ℕ) (r : Reader) (k : ℕ)
    → Before pre n p post r
    → get_or r.buffer (r.index + k) 0 ≡ get_or (low_bytes n p ++ post) k 0
byte-Before pre n p post r k (eb, ei) = rw (eb, ei) (get_or-append pre (low_bytes n p ++ post) k)

length-Before :
    (pre : List ℕ) (n p : ℕ) (post : List ℕ) (r : Reader)
    → Before pre n p post r
    → length r.buffer ≡ length pre + (n + length post)
length-Before pre n p post r (eb, ei) = omega (
  arith,
  ap (λ (l : List ℕ). length l) eb,
  length-append pre (low_bytes n p ++ post),
  length-append (low_bytes n p) post,
  length-low_bytes n p,
)

pub read_one :
    (pre : List ℕ) (p : ℕ) (post : List ℕ) (r : Reader)
    → Before pre 1 p post r
    → p < 2 ^ 8
    → read_places 8 1 r ≡ some (p, record r { index = r.index + 1 })
unfolding read_places low_bytes
read_one pre p post r b h =
    rw (le→ltb (length r.buffer) (r.index + 1) (omega (arith, length-Before pre 1 p post r b, b.1)))
      (ap (λ (v : ℕ). some (v, record r { index = r.index + 1 }))
        (omega (arith, byte-Before pre 1 p post r 0 b)))

pub read_two :
    (pre : List ℕ) (p : ℕ) (post : List ℕ) (r : Reader)
    → Before pre 2 p post r
    → p < 2 ^ 16
    → read_places 16 2 r ≡ some (p, record r { index = r.index + 2 })
unfolding read_places low_bytes
read_two pre p post r b h =
    rw (le→ltb (length r.buffer) (r.index + 2) (omega (arith, length-Before pre 2 p post r b, b.1)))
      (ap (λ (v : ℕ). some (v, record r { index = r.index + 2 }))
        (omega (arith, byte-Before pre 2 p post r 0 b, byte-Before pre 2 p post r 1 b)))

pub read_four :
    (pre : List ℕ) (p : ℕ) (post : List ℕ) (r : Reader)
    → Before pre 4 p post r
    → p < 2 ^ 32
    → read_places 32 4 r ≡ some (p, record r { index = r.index + 4 })
unfolding read_places low_bytes
read_four pre p post r b h =
    rw (le→ltb (length r.buffer) (r.index + 4) (omega (arith, length-Before pre 4 p post r b, b.1)))
      (ap (λ (v : ℕ). some (v, record r { index = r.index + 4 }))
        (omega (
          arith,
          byte-Before pre 4 p post r 0 b,
          byte-Before pre 4 p post r 1 b,
          byte-Before pre 4 p post r 2 b,
          byte-Before pre 4 p post r 3 b,
        )))

pub read_eight :
    (pre : List ℕ) (p : ℕ) (post : List ℕ) (r : Reader)
    → Before pre 8 p post r
    → p < 2 ^ 64
    → read_places 64 8 r ≡ some (p, record r { index = r.index + 8 })
unfolding read_places low_bytes
read_eight pre p post r b h =
    rw (le→ltb (length r.buffer) (r.index + 8) (omega (arith, length-Before pre 8 p post r b, b.1)))
      (ap (λ (v : ℕ). some (v, record r { index = r.index + 8 }))
        (omega (
          arith,
          byte-Before pre 8 p post r 0 b,
          byte-Before pre 8 p post r 1 b,
          byte-Before pre 8 p post r 2 b,
          byte-Before pre 8 p post r 3 b,
          byte-Before pre 8 p post r 4 b,
          byte-Before pre 8 p post r 5 b,
          byte-Before pre 8 p post r 6 b,
          byte-Before pre 8 p post r 7 b,
        )))

else_branch : {A : Type 0} (b : Bool) (x y : A) → b ≡ false → (if b then x else y) ≡ y
else_branch b x y h = rw h refl

-- A read with enough bytes left does not panic, and moves the index on.
pub read_places_total :
    (w n : ℕ) (r : Reader)
    → r.index + n ≤ length r.buffer
    → (v : ℕ) × (read_places w n r ≡ some (v, record r { index = r.index + n }))
unfolding read_places
read_places_total w n r h = (
  _,
  else_branch _ none (some (_, record r { index = r.index + n }))
      (le→ltb (length r.buffer) (r.index + n) h),
)

pub read_signed_total :
    (w n : ℕ) (r : Reader)
    → r.index + n ≤ length r.buffer
    → (v : ℤ) × (read_signed w n r ≡ some (v, record r { index = r.index + n }))
read_signed_total w n r h =
    let (p, e) = read_places_total w n r h in (_, read_signed_lem w n p r _ e)
