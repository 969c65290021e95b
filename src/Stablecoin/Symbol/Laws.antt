-- ===== src/Stablecoin/Symbol/Laws.antt =====
-- Which symbols `normalize_symbol` accepts, and what it makes of them.
use solana_stablecoin_amm.Base.{
  ℕ, zero, suc, ◌≡◌, ◌≢◌, ◌↔◌, refl, sym, ap, ◌∙◌, true, false, some, List, [], ◌∷◌, ◌++◌, arith,
  ok,
}
use solana_stablecoin_amm.Stablecoin.Symbol.{
  is_empty, is_ascii_alphanumeric, all_alphanumeric, all_zero, text_end, take, drop, utf8_start,
  utf8_next, is_utf8_from, from_utf8, normalize_symbol,
}

abbrev pub replicate : ℕ → ℕ → List ℕ
replicate zero b = []
replicate (suc n) b = b ∷ replicate n b

-- A text of ASCII letters and digits, and at least one of them.
abbrev pub IsSymbol : List ℕ → Type 0
IsSymbol text = (text ≢ []) × (all_alphanumeric text ≡ true)

take-append-drop : (n : ℕ) (bs : List ℕ) → take n bs ++ drop n bs ≡ bs
take-append-drop zero bs = refl
take-append-drop (suc n) [] = refl
take-append-drop (suc n) (b ∷ bs) = ap (λ (t : List ℕ). b ∷ t) (take-append-drop n bs)

all_zero-replicate : (bs : List ℕ) → all_zero bs ≡ true → (n : ℕ) × (bs ≡ replicate n 0)
all_zero-replicate [] h = (zero, refl)
all_zero-replicate (b ∷ bs) h =
    let (n, e) = all_zero-replicate bs (ground arith) in (suc n, ground (arith, e))

replicate-all_zero : (n : ℕ) → all_zero (replicate n 0) ≡ true
replicate-all_zero zero = refl
replicate-all_zero (suc n) = ground (arith, replicate-all_zero n)

text_end-replicate : (n : ℕ) → text_end (replicate n 0) ≡ 0
text_end-replicate zero = refl
text_end-replicate (suc n) = refl

-- The text of a padded symbol.
take-text_end :
    (text : List ℕ) (n : ℕ)
    → all_alphanumeric text ≡ true
    → take (text_end (text ++ replicate n 0)) (text ++ replicate n 0) ≡ text
take-text_end [] n h = rw (text_end-replicate n)
take-text_end (b ∷ bs) n h = ground (arith, take-text_end bs n)

drop-text_end :
    (text : List ℕ) (n : ℕ)
    → all_alphanumeric text ≡ true
    → drop (text_end (text ++ replicate n 0)) (text ++ replicate n 0) ≡ replicate n 0
drop-text_end [] n h = rw (text_end-replicate n)
drop-text_end (b ∷ bs) n h = ground (arith, drop-text_end bs n)

-- ASCII is UTF-8, so that the error after the check is never returned.
utf8_next-ascii :
    (b : ℕ) → is_ascii_alphanumeric b ≡ true → utf8_next 0 128 191 b ≡ some (0, 128, 191)
unfolding utf8_next utf8_start
utf8_next-ascii b h = ground arith

all_alphanumeric-utf8 :
    (bs : List ℕ) → all_alphanumeric bs ≡ true → is_utf8_from 0 128 191 bs ≡ true
unfolding is_utf8_from
all_alphanumeric-utf8 [] h = refl
all_alphanumeric-utf8 (b ∷ bs) h =
    rw (utf8_next-ascii b (ground arith), is_utf8_from) (all_alphanumeric-utf8 bs (ground arith))

from_utf8-ascii : (bs : List ℕ) → all_alphanumeric bs ≡ true → from_utf8 bs ≡ some bs
unfolding from_utf8
from_utf8-ascii bs h = rw (all_alphanumeric-utf8 bs h)

normalize_symbol-ok :
    (symbol : List ℕ) {text : List ℕ}
    → normalize_symbol symbol ≡ ok text
    → (text ≡ take (text_end symbol) symbol)
      × (is_empty text ≡ false)
      × (all_alphanumeric text ≡ true)
      × (all_zero (drop (text_end symbol) symbol) ≡ true)
unfolding normalize_symbol from_utf8
normalize_symbol-ok symbol h = ground arith

is_empty-false : (bs : List ℕ) → bs ≢ [] → is_empty bs ≡ false
is_empty-false [] h = absurd (h refl)
is_empty-false (b ∷ bs) h = refl

normalize_padded :
    (text : List ℕ) (n : ℕ) → IsSymbol text → normalize_symbol (text ++ replicate n 0) ≡ ok text
unfolding normalize_symbol
normalize_padded text n h =
    rw (take-text_end text n h.1, drop-text_end text n h.1)
      (rw (replicate-all_zero n, h.1, from_utf8-ascii text h.1, is_empty-false text h.0) refl)

-- `normalize_symbol` returns a text exactly when the text is not empty, is of ASCII letters and
-- digits, and the symbol is the text followed by any number of zero bytes; so the error of
-- `String::from_utf8` is never returned.
pub normalize_symbol_iff :
    (symbol text : List ℕ)
    → (normalize_symbol symbol ≡ ok text)
      ↔ (IsSymbol text × ((n : ℕ) × (symbol ≡ text ++ replicate n 0)))
normalize_symbol_iff symbol text = (
  (λ h.
      let (e, full, letters, zeros) = normalize_symbol-ok symbol h in
      let (n, p) = all_zero-replicate (drop (text_end symbol) symbol) zeros in
      (
        ((λ none_there. ground arith), letters),
        (n, sym (take-append-drop (text_end symbol) symbol) ∙ rw (p, ← e) refl),
      )),
  (λ (is_symbol, (n, e)). rw e (normalize_padded text n is_symbol)),
)
