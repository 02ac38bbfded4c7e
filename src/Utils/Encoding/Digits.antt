-- ===== src/Utils/Encoding/Digits.antt =====
-- The hexadecimal digits, and the bytes that two of them are.
use go_openbmclapi.Prelude.{ℕ, ◌/◌, ◌%◌, ◌≡◌, ◌<◌, true, some, List, ◌++◌, arith}
use go_openbmclapi.Utils.Encoding.{
  hex_to_num_map, num_to_hex_map, hex_256, all_hex, is_hex, hex_to_256,
}

digit : (n : ℕ) → n < 16 → hex_to_num_map (num_to_hex_map n) ≡ n
unfolding hex_to_num_map num_to_hex_map
digit n lt = ground arith

-- HexTo256 gives back every byte from its entry of Hex256, whatever follows it, and this entry passes
-- IsHex.
pub hex_to_256-hex_256 :
    (n : ℕ) (s : List ℕ)
    → n < 256
    → (hex_to_256 (hex_256 n ++ s) ≡ some n) × (is_hex (hex_256 n) ≡ true)
unfolding hex_to_256 hex_256 is_hex all_hex
hex_to_256-hex_256 n s lt = (
  ground (arith, digit (n / 16) (omega (arith, lt)), digit (n % 16) (omega arith)),
  unfold hex_to_num_map num_to_hex_map in ground (arith, lt),
)
