-- ===== src/Message/Endian.antt =====
-- The byte order of a little-endian host, where cpu_to_be64 reverses the eight bytes of a word.
use rpc_kern.Base.{ℕ, ◌+◌, ◌*◌, ◌/◌, ◌%◌, ◌^◌, ◌<◌, ◌≡◌, refl, arith}
use rpc_kern.Message.{ByteOrder}

unfoldable pub swap64 : ℕ → ℕ
swap64 x =
    (x % 256) * 256 ^ 7
    + (x / 256 % 256) * 256 ^ 6
    + (x / 256 ^ 2 % 256) * 256 ^ 5
    + (x / 256 ^ 3 % 256) * 256 ^ 4
    + (x / 256 ^ 4 % 256) * 256 ^ 3
    + (x / 256 ^ 5 % 256) * 256 ^ 2
    + (x / 256 ^ 6 % 256) * 256
    + x / 256 ^ 7 % 256

unfoldable pub swap16 : ℕ → ℕ
swap16 x = (x % 256) * 256 + x / 256 % 256

pub swap64-swap64 : (x : ℕ) → x < 2 ^ 64 → swap64 (swap64 x) ≡ x
unfolding swap64
swap64-swap64 x h = omega arith

abbrev pub little_endian : ByteOrder
little_endian = record { cpu_to_be64 = swap64; htons = swap16; self_inverse = swap64-swap64 }

swap64_one : swap64 0x0102030405060708 ≡ 0x0807060504030201
unfolding swap64
swap64_one = refl
