-- ===== src/Encryption/Tables.antt =====
-- share/encryption/keyrand.go, xorkeytable.go and the constants of const.go: the generator of
-- pseudo-random numbers and the key table that it fills.
pub mod Laws
use Prim.Native.Nat.{bit_and, bit_or}
use freya.Common.{
  ℕ, zero, suc, ◌+◌, ◌-◌, ◌*◌, ◌/◌, ◌%◌, ◌^◌, ◌≤◌, ◌<◌, ◌≡◌, refl, List, [], ◌∷◌, ◌++◌, take,
  replicate, arith,
}

-- Go's unsigned 32-bit wrap-around.
abbrev pub u32 : ℕ → ℕ
u32 n = n % 2 ^ 32

abbrev pub recv_xor_key_num : ℕ
recv_xor_key_num = 0x4000

abbrev pub recv_xor_key_num_mask : ℕ
recv_xor_key_num_mask = 0x3fff

abbrev pub recv_xor_seed : ℕ
recv_xor_seed = bit_or 0x8f54c37b 1

abbrev pub recv_2nd_xor_seed : ℕ
recv_2nd_xor_seed = bit_or 0x34bc821a 1

abbrev pub send_xor_key : ℕ
send_xor_key = 0x7ab38cf1

abbrev pub s2c_header_size : ℕ
s2c_header_size = 0x06

abbrev pub c2s_header_size : ℕ
c2s_header_size = 0x0a

abbrev pub main_cmd_size : ℕ
main_cmd_size = 0x02

abbrev pub connect_2_svr_size : ℕ
connect_2_svr_size = 0x0e

abbrev pub magic_key : ℕ
magic_key = 0xb7e2

-- `KeyRand.Rand`, the new `holdRand` first. The product stays below 2 ^ 42, so int64 is exact.
pub rand : ℕ → ℕ × ℕ
rand hold_rand =
    let hold = u32 (u32 (hold_rand * 49723125) + 21403831) in
    (hold, bit_and ((hold / 2 ^ 16 * 41894339 + 11741117) / 2 ^ 16) 0xffff)

-- The loops that fill one half of the table, with the generator's state and the rounds left.
pub generate : ℕ → ℕ → List ℕ
generate zero hold_rand = []
generate (suc n) hold_rand =
    let (hold, low) = rand hold_rand in
    let (hold', high) = rand hold in
    u32 (bit_or (bit_and low 0xffff) (bit_and high 0xffff * 2 ^ 16)) ∷ generate n hold'

pub record XorKeyTable : Type 0 where
  pub key_table : List ℕ
  pub seed_2nd : ℕ

-- `XorKeyTable.XorKeyTable`: a table of zeros whose first half is generated.
pub first_table : XorKeyTable → XorKeyTable
first_table x = record x {
  key_table = generate recv_xor_key_num recv_xor_seed ++ replicate recv_xor_key_num 0;
}

-- `XorKeyTable.Generate2ndXorKeyTable`: the second half is overwritten.
pub generate_2nd : ℕ → XorKeyTable → XorKeyTable
generate_2nd seed x = record {
  key_table = take recv_xor_key_num x.key_table ++ generate recv_xor_key_num seed;
  seed_2nd = seed;
}

-- `XorKeyTable.Init`
pub init_table : XorKeyTable → XorKeyTable
init_table x = generate_2nd recv_2nd_xor_seed (first_table x)
