-- ===== src/Encryption/Cipher/Words.antt =====
-- The word loops of `Encrypt` and `Decrypt` (share/encryption/encryption.go) undo one another.
use Prim.Native.Nat.{bit_and, bit_xor, bit_xor-bitwise}
use native.Mathlib.Nat.{mod-mod, mod-eq_of_lt}
use freya.Common.{
  ℕ, zero, suc, ◌+◌, ◌*◌, ◌/◌, ◌%◌, ◌^◌, ◌<◌, ◌≡◌, refl, ap, ◌∙◌, List, [], ◌∷◌, take, drop, length,
  arith,
}
use freya.Common.Bits.{xor_cancel, xor_lt, xor-mod_pow, and-mod_zero, xor_comm}
use freya.Encryption.Bytes.{
  get_u32, put_u32, IsBytes, put-get, get-put_append, get_u32_lt, drop-put, length-put,
}
use freya.Encryption.Cipher.{mask, encrypt_tail, encrypt_words, decrypt_tail, decrypt_words}

xor_zero : (a : ℕ) → bit_xor a 0 ≡ a
xor_zero a = xor_comm a 0 ∙ bit_xor-bitwise 0 a

masked_mod : (k x key m : ℕ) → m % 2 ^ k ≡ 0 → bit_xor x (bit_and key m) % 2 ^ k ≡ x % 2 ^ k
masked_mod k x key m h =
    xor-mod_pow k x (bit_and key m)
    ∙ ap (bit_xor (x % 2 ^ k)) (and-mod_zero k key m h)
    ∙ xor_zero (x % 2 ^ k)

-- What is left of the last word, seen through its low bits.
tail_mod :
    (k a key m : ℕ)
    → m % 2 ^ k ≡ 0
    → a < 2 ^ k
    → let sent = bit_xor (bit_xor a key) (bit_and key m) in
      bit_xor (bit_xor (sent % 2 ^ k) key) (bit_and key m) % 2 ^ k ≡ a
tail_mod k a key m h lt =
    masked_mod k (bit_xor (sent % 2 ^ k) key) key m h
    ∙ xor-mod_pow k (sent % 2 ^ k) key
    ∙ ap (λ (t : ℕ). bit_xor t (key % 2 ^ k)) (mod-mod sent (2 ^ k) ∙ sent_mod)
    ∙ xor_cancel (a % 2 ^ k) (key % 2 ^ k)
    ∙ mod-eq_of_lt lt
  where
    sent : ℕ
    sent = bit_xor (bit_xor a key) (bit_and key m)

    sent_mod : sent % 2 ^ k ≡ bit_xor (a % 2 ^ k) (key % 2 ^ k)
    sent_mod = masked_mod k (bit_xor a key) key m h ∙ xor-mod_pow k a key

two_bytes :
    (w x y : ℕ)
    → w % 2 ^ 16 ≡ x + y * 2 ^ 8
    → x < 256
    → y < 256
    → w % 2 ^ 8 ∷ w / 2 ^ 8 % 2 ^ 8 ∷ [] ≡ x ∷ y ∷ []
two_bytes w x y e hx hy = ground arith

three_bytes :
    (w x y z : ℕ)
    → w % 2 ^ 24 ≡ x + y * 2 ^ 8 + z * 2 ^ 16
    → x < 256
    → y < 256
    → z < 256
    → w % 2 ^ 8 ∷ w / 2 ^ 8 % 2 ^ 8 ∷ w / 2 ^ 16 % 2 ^ 8 ∷ [] ≡ x ∷ y ∷ z ∷ []
three_bytes w x y z e hx hy hz = ground arith

low_two : (s : ℕ) → s % 2 ^ 8 + s / 2 ^ 8 % 2 ^ 8 * 2 ^ 8 ≡ s % 2 ^ 16
low_two s = omega arith

low_three :
    (s : ℕ) → s % 2 ^ 8 + s / 2 ^ 8 % 2 ^ 8 * 2 ^ 8 + s / 2 ^ 16 % 2 ^ 8 * 2 ^ 16 ≡ s % 2 ^ 24
low_three s = omega arith

tail_roundtrip :
    (key remain : ℕ) (bytes : List ℕ)
    → remain < 4
    → length bytes ≡ remain
    → IsBytes bytes
    → decrypt_tail key remain (encrypt_tail key remain bytes) ≡ bytes
unfolding encrypt_tail decrypt_tail mask get_u32 put_u32
tail_roundtrip key zero [] h e b = refl
tail_roundtrip key zero (x ∷ l) h e b = absurd (omega arith)
tail_roundtrip key (suc zero) [] h e b = absurd (omega arith)
tail_roundtrip key (suc zero) (x ∷ []) h e b =
    ap (λ (t : ℕ). t ∷ []) (tail_mod 8 x key 0xffffff00 refl b.0)
tail_roundtrip key (suc zero) (x ∷ y ∷ l) h e b = absurd (omega arith)
tail_roundtrip key (suc (suc zero)) [] h e b = absurd (omega arith)
tail_roundtrip key (suc (suc zero)) (x ∷ []) h e b = absurd (omega arith)
tail_roundtrip key (suc (suc zero)) (x ∷ y ∷ []) h e b =
    two_bytes _ x y
      (ap (λ (t : ℕ). bit_xor (bit_xor t key) (bit_and key 0xffff0000) % 2 ^ 16) (low_two _)
        ∙ tail_mod 16 (x + y * 2 ^ 8) key 0xffff0000 refl (omega arith))
      b.0 b.1.0
tail_roundtrip key (suc (suc zero)) (x ∷ y ∷ z ∷ l) h e b = absurd (omega arith)
tail_roundtrip key (suc (suc (suc zero))) [] h e b = absurd (omega arith)
tail_roundtrip key (suc (suc (suc zero))) (x ∷ []) h e b = absurd (omega arith)
tail_roundtrip key (suc (suc (suc zero))) (x ∷ y ∷ []) h e b = absurd (omega arith)
tail_roundtrip key (suc (suc (suc zero))) (x ∷ y ∷ z ∷ []) h e b =
    three_bytes _ x y z
      (ap (λ (t : ℕ). bit_xor (bit_xor t key) (bit_and key 0xff000000) % 2 ^ 24) (low_three _)
        ∙ tail_mod 24 (x + y * 2 ^ 8 + z * 2 ^ 16) key 0xff000000 refl (omega arith))
      b.0 b.1.0 b.1.1.0
tail_roundtrip key (suc (suc (suc zero))) (x ∷ y ∷ z ∷ w ∷ l) h e b = absurd (omega arith)
tail_roundtrip key (suc (suc (suc (suc n)))) bytes h e b = absurd (omega arith)

-- The loop of `Decrypt` undoes the loop of `Encrypt`, whatever the key table holds, if both start
-- with one key and look the next keys up alike.
pub decrypt_words-encrypt_words :
    (next : ℕ → ℕ) (n key remain : ℕ) (bytes : List ℕ)
    → ((x : ℕ) → next x < 2 ^ 32)
    → key < 2 ^ 32
    → remain < 4
    → length bytes ≡ n * 4 + remain
    → IsBytes bytes
    → decrypt_words next n key remain (encrypt_words next n key remain bytes) ≡ bytes
unfolding encrypt_words decrypt_words
decrypt_words-encrypt_words next zero key remain bytes hn hk hr hl hb =
    tail_roundtrip key remain bytes hr (omega arith) hb
decrypt_words-encrypt_words next (suc n) key remain (a ∷ b ∷ c ∷ d ∷ rest) hn hk hr hl hb =
    let w = get_u32 (a ∷ b ∷ c ∷ d ∷ rest) in
    let num = bit_xor w key in
    let num_lt : num < 2 ^ 32 = xor_lt 32 w key (get_u32_lt (a ∷ b ∷ c ∷ d ∷ rest) hb) hk in
    let ih : decrypt_words next n (next num) remain (encrypt_words next n (next num) remain rest)
        ≡ rest =
      decrypt_words-encrypt_words next n (next num) remain rest hn (hn num) hr (omega arith)
        hb.1.1.1.1 in
    rw (get-put_append num (encrypt_words next n (next num) remain rest) num_lt) (
      rw (drop-put num (encrypt_words next n (next num) remain rest))
        (rw (ih, xor_cancel w key, put-get a b c d rest hb.0 hb.1.0 hb.1.1.0 hb.1.1.1.0)))
decrypt_words-encrypt_words next (suc n) key remain _ hn hk hr hl hb = absurd (omega arith)

length-take_put : (remain w : ℕ) → remain < 4 → length (take remain (put_u32 w)) ≡ remain
unfolding put_u32
length-take_put zero w h = refl
length-take_put (suc zero) w h = refl
length-take_put (suc (suc zero)) w h = refl
length-take_put (suc (suc (suc zero))) w h = refl
length-take_put (suc (suc (suc (suc n)))) w h = absurd (omega arith)

pub length-encrypt_words :
    (next : ℕ → ℕ) (n key remain : ℕ) (bytes : List ℕ)
    → remain < 4
    → length (encrypt_words next n key remain bytes) ≡ n * 4 + remain
unfolding encrypt_words encrypt_tail
length-encrypt_words next zero key remain bytes h = omega (arith, length-take_put remain _ h)
length-encrypt_words next (suc n) key remain bytes h = omega (
  arith,
  length-put (bit_xor (get_u32 bytes) key)
      (encrypt_words next n (next (bit_xor (get_u32 bytes) key)) remain (drop 4 bytes)),
  length-encrypt_words next n (next (bit_xor (get_u32 bytes) key)) remain (drop 4 bytes) h,
)

pub length-decrypt_words :
    (next : ℕ → ℕ) (n key remain : ℕ) (bytes : List ℕ)
    → remain < 4
    → length (decrypt_words next n key remain bytes) ≡ n * 4 + remain
unfolding decrypt_words decrypt_tail
length-decrypt_words next zero key remain bytes h = omega (arith, length-take_put remain _ h)
length-decrypt_words next (suc n) key remain bytes h = omega (
  arith,
  length-put (bit_xor (get_u32 bytes) key)
      (decrypt_words next n (next (get_u32 bytes)) remain (drop 4 bytes)),
  length-decrypt_words next n (next (get_u32 bytes)) remain (drop 4 bytes) h,
)
