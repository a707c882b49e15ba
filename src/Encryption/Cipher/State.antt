-- ===== src/Encryption/Cipher/State.antt =====
-- The state of `Encryption` between packets (share/encryption/encryption.go), and the lookups in
-- its key table.
use Prim.Native.Nat.{bit_xor}
use freya.Common.{
  ◌-◌, ◌/◌, ltb, ◌∙◌, drop, true, Bool, ◌⊎◌, false, ℕ, zero, suc, ◌*◌, ◌^◌, ◌<◌, ◌≡◌, refl, List,
  [], ◌∷◌, length, get_or, All, arith, if◌then◌else◌, Bool-cases, inl, inr,
}
use freya.Common.Bits.{and_low_mask, xor_lt}
use freya.Encryption.Bytes.{get_u32, IsBytes, get_u32_lt}
use freya.Encryption.Tables.{XorKeyTable, recv_xor_key_num, recv_xor_key_num_mask}
use freya.Encryption.Tables.Laws.{IsKeyTable}
use freya.Encryption.Cipher.{
  has_key, encrypt_finds, decrypt_finds, keys_found, Encryption, Result, ok, err, panic, init,
  key_index, next_key, advance, finish, decrypt_first, decrypt_later, decrypt,
}

-- Between packets: the key table is whole, the index of the next key lies in its first half, the
-- multiple is 1 before the first packet and 2 after it, and the key is a 32-bit word.
pub record IsValid (e : Encryption) : Type 0 where
  pub table : IsKeyTable e.key
  pub idx_low : e.recv_xor_key_idx < recv_xor_key_num
  pub multiple : e.xor_key_table_base_multiple ≡ (if e.is_first_packet then 1 else 2)
  pub key_word : e.recv_xor_key < 2 ^ 32

pub init-IsValid :
    (table : XorKeyTable) (random : ℕ) (e : Encryption)
    → IsKeyTable table
    → random < recv_xor_key_num
    → e.recv_xor_key < 2 ^ 32
    → IsValid (init table random e)
unfolding init
init-IsValid table random e h r k = record { table = h; idx_low = r; multiple = refl; key_word = k }

All-get_or : (n : ℕ) (xs : List ℕ) (i : ℕ) → 0 < n → All (λ x. x < n) xs → get_or xs i 0 < n
All-get_or n [] i p h = p
All-get_or n (x ∷ xs) zero p h = h.0
All-get_or n (x ∷ xs) (suc i) p h = All-get_or n xs i p h.1

pub get_or-word : (t : XorKeyTable) (i : ℕ) → IsKeyTable t → get_or t.key_table i 0 < 2 ^ 32
get_or-word t i h = All-get_or (2 ^ 32) t.key_table i (omega arith) h.words

pub next_key-word :
    (t : XorKeyTable) (multiple x : ℕ) → IsKeyTable t → next_key t.key_table multiple x < 2 ^ 32
unfolding next_key
next_key-word t multiple x h = get_or-word t (key_index multiple x) h

-- Every lookup of `Encrypt` (multiple 1) and of `Decrypt` (the state's multiple, 1 or 2) lies inside
-- the key table, and so does the one that ends `Decrypt`: none of them can panic.
pub key_lookup_in_range :
    (e : Encryption) (xor_num : ℕ)
    → IsValid e
    → (key_index 1 xor_num < length e.key.key_table)
      × (key_index e.xor_key_table_base_multiple xor_num < length e.key.key_table)
      × (e.recv_xor_key_idx * 2 < length e.key.key_table)
unfolding key_index
key_lookup_in_range e x v =
    let m = and_low_mask 14 x recv_xor_key_num_mask refl in
    elim (Bool-cases e.is_first_packet) [
      | inl f ↦ (
        omega (arith, m, v.table.size),
        rw (v.multiple, f) (omega (arith, m, v.table.size)),
        omega (arith, v.idx_low, v.table.size),
      )
      | inr f ↦ (
        omega (arith, m, v.table.size),
        rw (v.multiple, f) (omega (arith, m, v.table.size)),
        omega (arith, v.idx_low, v.table.size),
      )
    ]

-- What the lookups need of the state: a whole table, an index in its first half, and the multiple that goes with
-- the first packet and the later ones.
pub record KeysFit (e : Encryption) : Type 0 where
  pub size : length e.key.key_table ≡ recv_xor_key_num * 2
  pub idx_low : e.recv_xor_key_idx < recv_xor_key_num
  pub multiple : e.xor_key_table_base_multiple ≡ (if e.is_first_packet then 1 else 2)

pub IsValid-KeysFit : (e : Encryption) → IsValid e → KeysFit e
IsValid-KeysFit e v = record { size = v.table.size; idx_low = v.idx_low; multiple = v.multiple }

pub has_key_lem :
    (table : List ℕ) (multiple xor_num : ℕ)
    → length table ≡ recv_xor_key_num * 2
    → (multiple ≡ 1) ⊎ (multiple ≡ 2)
    → has_key table multiple xor_num ≡ true
unfolding has_key key_index
has_key_lem table multiple x size (inl one) =
    let m = and_low_mask 14 x recv_xor_key_num_mask refl in rw (one) (ground (arith, m, size))
has_key_lem table multiple x size (inr two) =
    let m = and_low_mask 14 x recv_xor_key_num_mask refl in rw (two) (ground (arith, m, size))

pub encrypt_finds_all :
    (has : ℕ → Bool) (next : ℕ → ℕ) (n k : ℕ) (bytes : List ℕ)
    → ((x : ℕ) → has x ≡ true)
    → encrypt_finds has next n k bytes ≡ true
unfolding encrypt_finds
encrypt_finds_all has next zero k bytes h = refl
encrypt_finds_all has next (suc n) k bytes h =
    let x = bit_xor (get_u32 bytes) k in
    rw (h x, encrypt_finds_all has next n (next x) (drop 4 bytes) h) refl

decrypt_finds_all :
    (has : ℕ → Bool) (n : ℕ) (bytes : List ℕ)
    → ((x : ℕ) → has x ≡ true)
    → decrypt_finds has n bytes ≡ true
unfolding decrypt_finds
decrypt_finds_all has zero bytes h = refl
decrypt_finds_all has (suc n) bytes h =
    rw (h (get_u32 bytes), decrypt_finds_all has n (drop 4 bytes) h) refl

pub keys_found_lem :
    (e : Encryption) (n : ℕ) (bytes : List ℕ) → KeysFit e → keys_found e n bytes ≡ true
unfolding keys_found
keys_found_lem e n bytes f =
    let k = e.xor_key_table_base_multiple in
    let has = has_key e.key.key_table k in
    let one_or_two : (k ≡ 1) ⊎ (k ≡ 2) = elim (Bool-cases e.is_first_packet) [
      | inl first ↦ inl (f.multiple ∙ rw (first) refl)
      | inr later ↦ inr (f.multiple ∙ rw (later) refl)
    ] in
    let every : (x : ℕ) → has x ≡ true = λ x. has_key_lem e.key.key_table k x f.size one_or_two in
    let multiple = if e.is_first_packet then 2 else k in
    let last : ltb (e.recv_xor_key_idx * multiple) (length e.key.key_table) ≡ true =
      elim (Bool-cases e.is_first_packet) [
        | inl first ↦ rw (first) (ground (arith, f.idx_low, f.size))
        | inr later ↦
            let two : k ≡ 2 = f.multiple ∙ rw (later) refl in
            rw (later, two) (ground (arith, f.idx_low, f.size))
      ] in
    rw (every (get_u32 bytes), decrypt_finds_all has ((n - 8) / 4) (drop 8 bytes) every, last) refl

-- After a packet no later one is the first.
pub advance_later : (e : Encryption) → (advance e).is_first_packet ≡ false
unfolding advance
advance_later e = refl

pub advance-IsValid : (e : Encryption) → IsValid e → IsValid (advance e)
unfolding advance
advance-IsValid e v = record {
  table = v.table;
  idx_low = ground (arith, v.idx_low);
  multiple = ground (arith, v.multiple);
  key_word = get_or-word e.key _ v.table;
}

-- What a call of `Decrypt` returns leaves a valid state.
LeavesValid : Result × Encryption → Type 0
LeavesValid r = IsValid r.1

finish-LeavesValid : (e : Encryption) (r : Result) → IsValid e → LeavesValid (finish e r)
unfolding finish LeavesValid
finish-LeavesValid e (ok payload) v = advance-IsValid e v
finish-LeavesValid e (err x) v = v
finish-LeavesValid e panic v = v

error-LeavesValid : (e : Encryption) (r : Result) → IsValid e → LeavesValid (r, e)
unfolding LeavesValid
error-LeavesValid e r v = v

decrypt_later-LeavesValid :
    (e : Encryption) (bytes : List ℕ) → IsValid e → LeavesValid (decrypt_later e bytes)
unfolding decrypt_later
decrypt_later-LeavesValid e bytes v = grind (arith, error-LeavesValid, finish-LeavesValid)

decrypt_first-LeavesValid :
    (e : Encryption) (bytes : List ℕ)
    → IsBytes bytes
    → IsValid e
    → LeavesValid (decrypt_first e bytes)
unfolding decrypt_first
decrypt_first-LeavesValid e bytes b v = grind (arith, error-LeavesValid, finish-LeavesValid, v')
  where
    e' : Encryption
    e' = record e { recv_xor_key = bit_xor (get_u32 bytes) 0xeb7e2 }

    v' : IsValid e'
    v' = record {
      table = v.table;
      idx_low = v.idx_low;
      multiple = v.multiple;
      key_word = xor_lt 32 (get_u32 bytes) 0xeb7e2 (get_u32_lt bytes b) (omega arith);
    }

decrypt-LeavesValid :
    (e : Encryption) (bytes : List ℕ) → IsBytes bytes → IsValid e → LeavesValid (decrypt e bytes)
unfolding decrypt
decrypt-LeavesValid e bytes b v =
    grind (arith, error-LeavesValid, decrypt_later-LeavesValid, decrypt_first-LeavesValid)

-- `Decrypt` keeps the state valid on every path: first or later packet, accepted, refused or short.
pub decrypt-IsValid :
    (e : Encryption) (bytes : List ℕ) → IsBytes bytes → IsValid e → IsValid (decrypt e bytes).1
unfolding LeavesValid
decrypt-IsValid e bytes b v = decrypt-LeavesValid e bytes b v
