-- ===== src/Utils/Encoding.antt =====
-- utils/encoding.go: hexadecimal digits. A string is the list of its bytes here.
pub mod Digits
use go_openbmclapi.Prelude.{
  ℕ, ◌+◌, ◌-◌, ◌*◌, ◌/◌, ◌%◌, Bool, true, false, ◌&&◌, ◌||◌, not, Option, none, some, List, [], ◌∷◌,
  ltb, leb, ◌==◌, if◌then◌else◌, length,
}

-- HexToNumMap: 0 for every byte that is no digit.
unfoldable pub hex_to_num_map : ℕ → ℕ
hex_to_num_map b =
    if leb 48 b && leb b 57 then b - 48 else if leb 97 b && leb b 102 then b - 87 else 0

-- The bytes of NumToHexMap.
unfoldable pub num_to_hex_map : ℕ → ℕ
num_to_hex_map n = if ltb n 10 then 48 + n else 87 + n

-- Hex256
unfoldable pub hex_256 : ℕ → List ℕ
unfolding num_to_hex_map
hex_256 n = num_to_hex_map (n / 16) ∷ num_to_hex_map (n % 16) ∷ []

-- The loop of IsHex.
unfoldable pub all_hex : List ℕ → Bool
unfolding hex_to_num_map
all_hex [] = true
all_hex (b ∷ s) =
    let rest = all_hex s in if not (b == 48) && hex_to_num_map b == 0 then false else rest

unfoldable pub is_hex : List ℕ → Bool
unfolding all_hex
is_hex s = if ltb (length s) 2 || not (length s % 2 == 0) then false else all_hex s

-- HexTo256; none is the panic on a string of less than two bytes.
unfoldable pub hex_to_256 : List ℕ → Option ℕ
unfolding hex_to_num_map
hex_to_256 [] = none
hex_to_256 (a ∷ []) = none
hex_to_256 (a ∷ (b ∷ s)) = some (hex_to_num_map a * 16 + hex_to_num_map b)
