-- ===== src/Totp/Base32.antt =====
-- `encodeBase32` and `decodeBase32` of src/infrastructure/security/totp.ts. A text is the list of
-- its character codes, a buffer the list of its bytes. The code's `value` is a 32-bit integer that
-- it shifts with `<<` and reads with `>>>`: the number that stands for its bits, below 2 ^ 32.
use new_erp_final.Common.{
  ℕ, suc, ◌+◌, ◌-◌, ◌*◌, ◌/◌, ◌%◌, ◌^◌, Bool, ◌&&◌, Option, none, some, List, [], ◌∷◌, ◌++◌, ltb,
  leb, ◌==◌, if◌then◌else◌,
}

-- What the language does with a text: `toUpperCase` and the class `\s`.
pub record Letters : Type 0 where
  pub upper : List ℕ → List ℕ
  pub is_space : ℕ → Bool

-- `BASE32_ALPHABET[index]`: the letters from A and the digits from 2.
unfoldable pub letter : ℕ → ℕ
letter d = if ltb d 26 then 65 + d else 24 + d

-- `BASE32_ALPHABET.indexOf(char)`
unfoldable pub index_of : ℕ → Option ℕ
index_of c =
    if leb 65 c && leb c 90
    then some (c - 65)
    else if leb 50 c && leb c 55
    then some (c - 24)
    else none

-- `(value << k) | low`, where `low` is below 2 ^ k.
abbrev pub shift_in : ℕ → ℕ → ℕ → ℕ
shift_in k value low = value * 2 ^ k % 2 ^ 32 + low

-- The loop `while (bits >= 5)`: the letters that it appends, and the bits that it leaves.
unfoldable pub letters_of : ℕ → ℕ → List ℕ
letters_of value (suc (suc (suc (suc (suc n))))) = letter (value / 2 ^ n % 32) ∷ letters_of value n
letters_of value _ = []

unfoldable pub bits_left : ℕ → ℕ
bits_left (suc (suc (suc (suc (suc n))))) = bits_left n
bits_left n = n

-- The loop over the bytes, and what follows it.
unfoldable pub encode_from : ℕ → ℕ → List ℕ → List ℕ
encode_from value bits [] =
    if ltb 0 bits then letter (value * 2 ^ (5 - bits) % 2 ^ 32 % 32) ∷ [] else []
encode_from value bits (b ∷ bs) =
    let next = shift_in 8 value b in
    letters_of next (bits + 8) ++ encode_from next (bits_left (bits + 8)) bs

unfoldable pub encode : List ℕ → List ℕ
encode input = encode_from 0 0 input

-- `input.toUpperCase().replace(/=+$/g, '').replace(/\s+/g, '')`
unfoldable pub strip_padding : List ℕ → List ℕ
strip_padding [] = []
strip_padding (c ∷ cs) =
    let rest = strip_padding cs in
    elim rest [ [] ↦ (if c == 61 then [] else c ∷ []) | d ∷ ds ↦ c ∷ d ∷ ds ]

unfoldable pub drop_spaces : Letters → List ℕ → List ℕ
drop_spaces letters [] = []
drop_spaces letters (c ∷ cs) =
    let rest = drop_spaces letters cs in if letters.is_space c then rest else c ∷ rest

-- The loop over the characters; a character that is not in the alphabet throws.
unfoldable pub decode_from : ℕ → ℕ → List ℕ → Option (List ℕ)
decode_from value bits [] = some []
decode_from value bits (c ∷ cs) = elim (index_of c) [
  | none ↦ none
  | some index ↦
      let next = shift_in 5 value index in
      let full = leb 8 (bits + 5) in
      let byte = next / 2 ^ (bits + 5 - 8) % 256 in
      elim (decode_from next (if full then bits + 5 - 8 else bits + 5) cs) [
        | none ↦ none
        | some rest ↦ some (if full then byte ∷ rest else rest)
      ]
]

unfoldable pub decode : Letters → List ℕ → Option (List ℕ)
decode letters input = decode_from 0 0 (drop_spaces letters (strip_padding (letters.upper input)))
