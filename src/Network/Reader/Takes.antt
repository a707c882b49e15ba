-- ===== src/Network/Reader/Takes.antt =====
-- Reads that find as many bytes as they take do not panic (share/network/reader.go).
use freya.Common.{
  ℕ, ◌+◌, ◌≤◌, ◌≡◌, refl, Bool, true, false, Option, some, length, arith, if◌then◌else◌,
}
use freya.Network.Reader.{Reader, Read, answer, both}

-- There is a result.
abbrev pub Yields : {A : Type 0} → Option A → Type 0
Yields {A} o = (a : A) × (o ≡ some a)

-- A read of `n` bytes where there are as many.
abbrev pub Takes : {A : Type 0} → ℕ → Read A → Type 0
Takes {A} n m =
    (r : Reader)
    → r.index + n ≤ length r.buffer
    → (a : A) × (m r ≡ some (a, record r { index = r.index + n }))

pub one-Takes :
    {A : Type 0} (n : ℕ) (p : Read A)
    → Takes n p
    → (r : Reader) → r.index + n ≤ length r.buffer
    → Yields (p r)
one-Takes n p hp r h = let (a, e) = hp r h in ((a, record r { index = r.index + n }), e)

pub both-Takes :
    {A B : Type 0} (n k : ℕ) (p : Read A) (q : Read B)
    → Takes n p
    → Takes k q
    → (r : Reader) → r.index + (n + k) ≤ length r.buffer
    → Yields (both p q r)
both-Takes n k p q hp hq r h =
    let (a, e) = hp r (omega (arith, h)) in
    let (b, e') = hq (record r { index = r.index + n }) (omega (arith, h)) in
    (((a, b), record r { index = r.index + n + k }), ground (arith, e, e'))

-- Two reads that take their bytes take the bytes of both.
pub pair-Takes :
    {A B : Type 0} (n k : ℕ) (p : Read A) (q : Read B)
    → Takes n p
    → Takes k q
    → Takes (n + k) (both p q)
pair-Takes n k p q hp hq r h =
    let (a, e) = hp r (omega (arith, h)) in
    let (b, e') = hq (record r { index = r.index + n }) (omega (arith, h)) in
    let place : r.index + n + k ≡ r.index + (n + k) = omega arith in
    ((a, b), ground (arith, e, e', place))

-- What `both-Takes` says of two reads, where the first leaves a reader for the second that is known.
pub then_Yields :
    {A B : Type 0} (n : ℕ) (p : Read A) (q : Read B)
    → Takes n p
    → (r : Reader) → r.index + n ≤ length r.buffer
    → Yields (q (record r { index = r.index + n }))
    → Yields (both p q r)
then_Yields n p q hp r h ((b, r'), e') =
    let (a, e) = hp r h in (((a, b), r'), ground (arith, e, e'))

pub answer_total :
    {A B : Type 0} (b : Bool) (x : B) (m : Option (A × Reader)) (f : A → B)
    → (b ≡ false → Yields m)
    → Yields (if b then some x else answer m f)
answer_total true x m f h = (x, refl)
answer_total false x m f h = let ((a, r), e) = h refl in (f a, rw e refl)
