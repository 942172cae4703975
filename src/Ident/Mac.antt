-- ===== src/Ident/Mac.antt =====
-- MAC addresses as texts: generate_mac (core/util.cxx), and the printing of six bytes (core/netlink.cxx).
use Prim.Native.String.{◌++◌}
use marinatb.Common.{ℕ, zero, suc, ◌/◌, ◌%◌, String, List, [], ◌∷◌, string_eq}

unfoldable pub pick : List String → ℕ → String
pick [] n = ""
pick (x ∷ xs) zero = x
pick (x ∷ xs) (suc n) = pick xs n

abbrev digits : List String
digits =
    "0" ∷ "1" ∷ "2" ∷ "3" ∷ "4" ∷ "5" ∷ "6" ∷ "7" ∷ "8" ∷ "9" ∷ "a" ∷ "b" ∷ "c" ∷ "d" ∷ "e" ∷ "f"
    ∷ []

-- %02x, and setfill('0') << setw(2) << hex, of a byte
unfoldable pub hex2 : ℕ → String
hex2 n = pick digits (n / 16) ++ pick digits (n % 16)

unfoldable pub octets : List ℕ → String
octets [] = ""
octets (d ∷ ds) = (":" ++ hex2 d) ++ octets ds

-- The five numbers that generate_mac draws, from a run of the random device.
abbrev five : (ℕ → ℕ) → List ℕ
five dist = dist 0 ∷ dist 1 ∷ dist 2 ∷ dist 3 ∷ dist 4 ∷ []

-- generate_mac
unfoldable pub generate_mac : (ℕ → ℕ) → String
generate_mac dist = hex2 2 ++ octets (five dist)
