-- ===== src/Audit/Hex.antt =====
-- `bytes.fromhex`: pairs of hexadecimal digits, with ASCII white space between them.
use razor_trust.Common.{
  ℕ, ◌+◌, ◌-◌, ◌*◌, Bool, ◌&&◌, ◌||◌, Option, none, some, List, [], ◌∷◌, leb, ◌==◌, if◌then◌else◌,
}

unfoldable pub hex_digit : ℕ → Option ℕ
hex_digit c =
    if leb b'0' c && leb c b'9'
    then some (c - b'0')
    else if leb b'a' c && leb c b'f'
    then some (c - b'a' + 10)
    else if leb b'A' c && leb c b'F'
    then some (c - b'A' + 10)
    else none

-- Space, tab, line feed, vertical tab, form feed, carriage return.
abbrev is_space : ℕ → Bool
is_space c = c == 32 || (leb 9 c && leb c 13)

abbrev pair_of : Option ℕ → Option ℕ → Option ℕ
pair_of none low = none
pair_of (some high) none = none
pair_of (some high) (some low) = some (high * 16 + low)

abbrev cons_of : Option ℕ → Option (List ℕ) → Option (List ℕ)
cons_of none rest = none
cons_of (some b) none = none
cons_of (some b) (some bs) = some (b ∷ bs)

-- `none` is the `ValueError`.
unfoldable pub from_hex : List ℕ → Option (List ℕ)
unfolding hex_digit
from_hex [] = some []
from_hex (c ∷ []) = if is_space c then some [] else none
from_hex (c ∷ d ∷ cs) =
    let skipped = from_hex (d ∷ cs) in
    let rest = from_hex cs in
    if is_space c then skipped else cons_of (pair_of (hex_digit c) (hex_digit d)) rest
