-- ===== src/Network/Writer/Splice.antt =====
-- Assignments to successive places of a buffer, as the methods of share/network/writer.go make them.
use freya.Common.{
  take-length_append, ◌∙◌, lt→ltb, take-append-drop, sym, length-drop, length-take, ℕ, zero, suc,
  ◌+◌, ◌≤◌, ◌<◌, ◌≡◌, refl, ap, some, List, [], ◌∷◌, ◌++◌, take, drop, length, set, arith,
  length-append,
}
use mathlib.Core.Path.{ap₂}
use mathlib.Core.List.{append_assoc}
use freya.Network.Writer.{assign}

take-set_self :
    (i : ℕ) (xs : List ℕ) (v : ℕ) → i < length xs → take (suc i) (set xs i v) ≡ take i xs ++ v ∷ []
take-set_self i [] v h = absurd (omega arith)
take-set_self zero (x ∷ xs) v h = refl
take-set_self (suc i) (x ∷ xs) v h = ap (λ l. x ∷ l) (take-set_self i xs v (omega arith))

drop-set : (i k : ℕ) (xs : List ℕ) (v : ℕ) → i < k → drop k (set xs i v) ≡ drop k xs
drop-set i zero xs v h = absurd (omega arith)
drop-set i (suc k) [] v h = refl
drop-set zero (suc k) (x ∷ xs) v h = refl
drop-set (suc i) (suc k) (x ∷ xs) v h = drop-set i k xs v (omega arith)

length-set : (i : ℕ) (xs : List ℕ) (v : ℕ) → length (set xs i v) ≡ length xs
length-set i [] v = refl
length-set zero (x ∷ xs) v = refl
length-set (suc i) (x ∷ xs) v = ap suc (length-set i xs v)

-- A buffer with bytes put in place from an index on.
abbrev pub splice : ℕ → List ℕ → List ℕ → List ℕ
splice i bytes buffer = take i buffer ++ (bytes ++ drop (i + length bytes) buffer)

splice_step :
    (b : ℕ) (bs : List ℕ) (i : ℕ) (buffer : List ℕ)
    → i < length buffer
    → splice (i + 1) bs (set buffer i b) ≡ splice i (b ∷ bs) buffer
splice_step b bs i buffer h =
    ap₂ (λ (l r : List ℕ). l ++ (bs ++ r)) first rest
    ∙ append_assoc (take i buffer) (b ∷ []) (bs ++ drop (i + length (b ∷ bs)) buffer)
  where
    first : take (i + 1) (set buffer i b) ≡ take i buffer ++ b ∷ []
    first =
        let e : i + 1 ≡ suc i = omega arith in
        ap (λ (n : ℕ). take n (set buffer i b)) e ∙ take-set_self i buffer b h

    rest : drop (i + 1 + length bs) (set buffer i b) ≡ drop (i + length (b ∷ bs)) buffer
    rest =
        let e : i + 1 + length bs ≡ i + length (b ∷ bs) = omega arith in
        ap (λ (n : ℕ). drop n (set buffer i b)) e
        ∙ drop-set i (i + length (b ∷ bs)) buffer b (omega arith)

-- Assignments at successive places inside the buffer splice the bytes in.
pub assign-splice :
    (bytes : List ℕ) (i : ℕ) (buffer : List ℕ)
    → i + length bytes ≤ length buffer
    → assign i bytes buffer ≡ some (splice i bytes buffer)
unfolding assign
assign-splice [] i buffer h =
    let e : i + 0 ≡ i = omega arith in ap some (sym (rw e (take-append-drop i buffer)))
assign-splice (b ∷ bs) i buffer h = rw (lt→ltb i (length buffer) (omega arith)) (
    assign-splice bs (i + 1) (set buffer i b) (omega (arith, length-set i buffer b))
    ∙ ap some (splice_step b bs i buffer (omega arith)))

pub length-splice :
    (bytes : List ℕ) (i : ℕ) (buffer : List ℕ)
    → i + length bytes ≤ length buffer
    → length (splice i bytes buffer) ≡ length buffer
length-splice bytes i buffer h = omega (
  arith,
  length-append (take i buffer) (bytes ++ drop (i + length bytes) buffer),
  length-append bytes (drop (i + length bytes) buffer),
  length-take i buffer,
  length-drop (i + length bytes) buffer,
)

pub take-splice :
    (bytes : List ℕ) (i : ℕ) (buffer : List ℕ)
    → i ≤ length buffer
    → take (i + length bytes) (splice i bytes buffer) ≡ take i buffer ++ bytes
take-splice bytes i buffer h =
    let e : i + length bytes ≡ length (take i buffer ++ bytes) =
      omega (arith, length-append (take i buffer) bytes, length-take i buffer) in
    let assoc = append_assoc (take i buffer) bytes (drop (i + length bytes) buffer) in
    ap (take (i + length bytes)) (sym assoc)
    ∙ ap (λ (n : ℕ). take n ((take i buffer ++ bytes) ++ drop (i + length bytes) buffer)) e
    ∙ take-length_append (take i buffer ++ bytes) (drop (i + length bytes) buffer)
