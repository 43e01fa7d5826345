-- ===== src/Totp/Codes.antt =====
-- `generateTotp` and `verify` of src/infrastructure/security/totp.ts. A text is the list of its
-- character codes. `createHmac` is a parameter. A code has at least one digit, and a counter is
-- below 2 ^ 64.
use new_erp_final.Common.{
  ℕ, zero, suc, ◌+◌, ◌-◌, ◌*◌, ◌/◌, ◌%◌, ◌^◌, Bool, true, false, ◌&&◌, Option, none, some, List, [],
  ◌∷◌, ◌++◌, length, get_elem?, ltb, leb, ◌==◌, if◌then◌else◌,
}
use new_erp_final.Totp.Base32.{Letters, decode}

-- The digest of `createHmac('sha1', key).update(buffer)`.
abbrev pub Hmac : Type 0
Hmac = List ℕ → List ℕ → List ℕ

-- `buffer.writeBigUInt64BE(BigInt(counter))`, the bytes of a number below 2 ^ 64.
unfoldable pub big_endian : ℕ → ℕ → List ℕ
big_endian zero n = []
big_endian (suc k) n = big_endian k (n / 256) ++ n % 256 ∷ []

-- `digest[i]!`, which counts as 0 where there is no such byte.
abbrev byte_at : List ℕ → ℕ → ℕ
byte_at digest i = elim (get_elem? digest i) [ none ↦ 0 | some b ↦ b ]

-- The four bytes of the digest that its last one points to, without the sign.
unfoldable pub truncate : List ℕ → ℕ
truncate digest =
    let offset = byte_at digest (length digest - 1) % 16 in
    byte_at digest offset % 128 * 2 ^ 24
    + byte_at digest (offset + 1) % 256 * 2 ^ 16
    + byte_at digest (offset + 2) % 256 * 2 ^ 8
    + byte_at digest (offset + 3) % 256

-- `String(n).padStart(digits, '0')` of a number below 10 ^ digits.
unfoldable pub padded : ℕ → ℕ → List ℕ
padded zero n = []
padded (suc k) n = padded k (n / 10) ++ (48 + n % 10) ∷ []

-- A secret that is no Base32 throws.
unfoldable pub generate : Letters → Hmac → List ℕ → ℕ → ℕ → Option (List ℕ)
generate letters hmac secret counter digits = elim (decode letters secret) [
  | none ↦ none
  | some key ↦ some (padded digits (truncate (hmac key (big_endian 8 counter)) % 10 ^ digits))
]

-- `/^\d+$/`
abbrev pub is_digit : ℕ → Bool
is_digit c = leb 48 c && leb c 57

abbrev pub are_digits : List ℕ → Bool
are_digits [] = true
are_digits (c ∷ cs) = is_digit c && are_digits cs

-- `timingSafeEqual`, of two buffers of one length.
abbrev pub same_text : List ℕ → List ℕ → Bool
same_text [] [] = true
same_text (c ∷ cs) (d ∷ ds) = c == d && same_text cs ds
same_text _ _ = false

pub record Options : Type 0 where
  pub digits : ℕ
  pub period_seconds : ℕ
  pub window : ℕ

module _ (letters : Letters) (hmac : Hmac) (options : Options) where
  -- `n` rounds of the loop, from the offset `i - window`. A negative counter throws.
  unfoldable pub scan : List ℕ → List ℕ → ℕ → ℕ → ℕ → Option Bool
  scan secret token counter zero i = some false
  scan secret token counter (suc n) i =
      let rest = scan secret token counter n (i + 1) in
      if ltb (counter + i) options.window
      then none
      else elim (generate letters hmac secret (counter + i - options.window) options.digits) [
        | none ↦ none
        | some expected ↦ if same_text token expected then some true else rest
      ]

  -- `now` is in milliseconds; `none` is an error.
  unfoldable pub verify : List ℕ → List ℕ → ℕ → Option Bool
  verify secret token now =
      if are_digits token && ltb 0 (length token) && length token == options.digits
      then scan secret token (now / (1000 * options.period_seconds)) (2 * options.window + 1) 0
      else some false
