-- ===== src/Encryption/Tables/Laws.antt =====
-- The key table that share/encryption/xorkeytable.go generates.
use native.Mathlib.Nat.{mod-lt}
use freya.Common.{
  ℕ, zero, suc, ◌*◌, ◌^◌, ◌<◌, ◌≡◌, refl, ap, List, [], ◌∷◌, ◌++◌, take, replicate, length, All,
  arith, length-append, length-take, length-replicate,
}
use freya.Encryption.Tables.{
  recv_xor_key_num, recv_xor_seed, recv_2nd_xor_seed, rand, generate, XorKeyTable, first_table,
  generate_2nd, init_table,
}

-- A key table has twice 0x4000 entries, each a 32-bit word.
pub record IsKeyTable (t : XorKeyTable) : Type 0 where
  pub size : length t.key_table ≡ recv_xor_key_num * 2
  pub words : All (λ w. w < 2 ^ 32) t.key_table

length-generate : (n seed : ℕ) → length (generate n seed) ≡ n
unfolding generate
length-generate zero seed = refl
length-generate (suc n) seed = ap suc (length-generate n (rand (rand seed).0).0)

generate-words : (n seed : ℕ) → All (λ w. w < 2 ^ 32) (generate n seed)
unfolding generate
generate-words zero seed = tt
generate-words (suc n) seed = (mod-lt _ (omega arith), generate-words n (rand (rand seed).0).0)

All-append :
    (n : ℕ) (xs ys : List ℕ)
    → All (λ w. w < n) xs
    → All (λ w. w < n) ys
    → All (λ w. w < n) (xs ++ ys)
All-append n [] ys hx hy = hy
All-append n (x ∷ xs) ys hx hy = (hx.0, All-append n xs ys hx.1 hy)

All-take : (n k : ℕ) (xs : List ℕ) → All (λ w. w < n) xs → All (λ w. w < n) (take k xs)
All-take n zero xs h = tt
All-take n (suc k) [] h = tt
All-take n (suc k) (x ∷ xs) h = (h.0, All-take n k xs h.1)

All-zeros : (n k : ℕ) → 0 < n → All (λ w. w < n) (replicate k 0)
All-zeros n zero h = tt
All-zeros n (suc k) h = (h, All-zeros n k h)

first_table-IsKeyTable : (t : XorKeyTable) → IsKeyTable (first_table t)
unfolding first_table
first_table-IsKeyTable t = record {
  size = omega (
    arith,
    length-append (generate recv_xor_key_num recv_xor_seed) (replicate recv_xor_key_num 0),
    length-generate recv_xor_key_num recv_xor_seed,
    length-replicate {A = ℕ} recv_xor_key_num 0,
  );
  words =
      All-append (2 ^ 32) (generate recv_xor_key_num recv_xor_seed) (replicate recv_xor_key_num 0)
        (generate-words recv_xor_key_num recv_xor_seed)
        (All-zeros (2 ^ 32) recv_xor_key_num (omega arith));
}

pub generate_2nd-IsKeyTable :
    (seed : ℕ) (t : XorKeyTable) → IsKeyTable t → IsKeyTable (generate_2nd seed t)
unfolding generate_2nd
generate_2nd-IsKeyTable seed t h = record {
  size = omega (
    arith,
    h.size,
    length-append (take recv_xor_key_num t.key_table) (generate recv_xor_key_num seed),
    length-generate recv_xor_key_num seed,
    length-take recv_xor_key_num t.key_table,
  );
  words =
      All-append (2 ^ 32) (take recv_xor_key_num t.key_table) (generate recv_xor_key_num seed)
        (All-take (2 ^ 32) recv_xor_key_num t.key_table h.words)
        (generate-words recv_xor_key_num seed);
}

-- `Init` makes a whole table from any state: 0x8000 words of 32 bits.
pub init_table-IsKeyTable : (t : XorKeyTable) → IsKeyTable (init_table t)
unfolding init_table
init_table-IsKeyTable t =
    generate_2nd-IsKeyTable recv_2nd_xor_seed (first_table t) (first_table-IsKeyTable t)
