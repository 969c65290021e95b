-- ===== src/Stablecoin/Symbol.antt =====
-- `normalize_symbol` of programs/stablecoin/src/instructions/initialize_stablecoin.rs. A byte is its
-- number; `String::from_utf8` is written out as the walk over the bytes that RFC 3629 describes.
pub mod Laws
use solana_stablecoin_amm.Base.{
  ℕ, zero, suc, ◌-◌, Bool, true, false, not, ◌&&◌, ◌||◌, Option, none, some, List, [], ◌∷◌, leb,
  ltb, ◌==◌, if◌then◌else◌, Result, ok, err, ◌>>=◌, ◌>>◌, guard,
}
use solana_stablecoin_amm.Chain.{Failure}
use solana_stablecoin_amm.Stablecoin.{StablecoinError, invalid_symbol, require}

abbrev pub is_empty : List ℕ → Bool
is_empty [] = true
is_empty (b ∷ bs) = false

-- `u8::is_ascii_alphanumeric`
abbrev pub is_ascii_alphanumeric : ℕ → Bool
is_ascii_alphanumeric b =
    leb b'0' b && leb b b'9' || leb b'A' b && leb b b'Z' || leb b'a' b && leb b b'z'

abbrev pub all_alphanumeric : List ℕ → Bool
all_alphanumeric [] = true
all_alphanumeric (b ∷ bs) = is_ascii_alphanumeric b && all_alphanumeric bs

abbrev pub all_zero : List ℕ → Bool
all_zero [] = true
all_zero (b ∷ bs) = b == 0 && all_zero bs

-- `position(|byte| *byte == 0).unwrap_or(symbol.len())`
abbrev pub text_end : List ℕ → ℕ
text_end [] = 0
text_end (b ∷ bs) = if b == 0 then 0 else suc (text_end bs)

abbrev pub take : ℕ → List ℕ → List ℕ
take zero bs = []
take (suc n) [] = []
take (suc n) (b ∷ bs) = b ∷ take n bs

abbrev pub drop : ℕ → List ℕ → List ℕ
drop zero bs = bs
drop (suc n) [] = []
drop (suc n) (b ∷ bs) = drop n bs

-- After the first byte of a character: how many follow, and the range of the next one.
unfoldable pub utf8_start : ℕ → Option (ℕ × ℕ × ℕ)
utf8_start b =
    if ltb b 128
    then some (0, 128, 191)
    else if leb 194 b && leb b 223
    then some (1, 128, 191)
    else if b == 224
    then some (2, 160, 191)
    else if b == 237
    then some (2, 128, 159)
    else if leb 225 b && leb b 239
    then some (2, 128, 191)
    else if b == 240
    then some (3, 144, 191)
    else if leb 241 b && leb b 243
    then some (3, 128, 191)
    else if b == 244
    then some (3, 128, 143)
    else none

unfoldable pub utf8_next : (need low high b : ℕ) → Option (ℕ × ℕ × ℕ)
utf8_next need low high b =
    if need == 0
    then utf8_start b
    else if leb low b && leb b high
    then some (need - 1, 128, 191)
    else none

unfoldable pub is_utf8_from : (need low high : ℕ) → List ℕ → Bool
is_utf8_from need low high [] = need == 0
is_utf8_from need low high (b ∷ bs) = elim (utf8_next need low high b) [
  | none ↦ false
  | some (need', low', high') ↦ is_utf8_from need' low' high' bs
]

-- `String::from_utf8`
unfoldable pub from_utf8 : List ℕ → Option (List ℕ)
from_utf8 bs = if is_utf8_from 0 128 191 bs then some bs else none

unfoldable pub normalize_symbol : List ℕ → Result (Failure StablecoinError) (List ℕ)
normalize_symbol symbol = do
  let text = take (text_end symbol) symbol
  let padding = drop (text_end symbol) symbol
  require (not (is_empty text) && all_alphanumeric text && all_zero padding) invalid_symbol
  elim (from_utf8 text) [ none ↦ err (Failure.custom invalid_symbol) | some t ↦ ok t ]
