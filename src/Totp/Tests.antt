-- ===== src/Totp/Tests.antt =====
-- Concrete runs of the one-time passwords, with the digest of RFC 4226, section 5.4.
use new_erp_final.Common.{ℕ, ◌+◌, ◌≤◌, ◌≡◌, refl, arith, ◌↔◌, true, some, List, [], ◌∷◌, ◌==◌}
use new_erp_final.Totp.Base32.{
  Letters, letter, letters_of, bits_left, encode_from, index_of, encode, decode, decode_from,
  drop_spaces, strip_padding,
}
use new_erp_final.Totp.Codes
use new_erp_final.Totp.Codes.{Hmac, Options, verify}
use new_erp_final.Totp.Secrets.{IsPlain, decode-encode}
use new_erp_final.Totp.Window.{code, verify_window}

abbrev plain : Letters
plain = record { upper = λ cs. cs; is_space = λ c. c == 32 }

plain-IsPlain : IsPlain plain
unfolding index_of
plain-IsPlain = record { upper_leaves = λ cs h. refl; no_space = λ c h. ground arith }

decode-encode_example :
    decode plain (encode (102 ∷ 111 ∷ 111 ∷ 98 ∷ [])) ≡ some (102 ∷ 111 ∷ 111 ∷ 98 ∷ [])
decode-encode_example = decode-encode plain (102 ∷ 111 ∷ 111 ∷ 98 ∷ []) plain-IsPlain refl

abbrev hmac : Hmac
hmac key message =
    31 ∷ 134 ∷ 152 ∷ 105 ∷ 14 ∷ 2 ∷ 202 ∷ 22 ∷ 97 ∷ 133 ∷ 80 ∷ 239 ∷ 127 ∷ 25 ∷ 218 ∷ 142 ∷ 148 ∷ 91
    ∷ 85 ∷ 90 ∷ []

-- 872921
abbrev token : List ℕ
token = 56 ∷ 55 ∷ 50 ∷ 57 ∷ 50 ∷ 49 ∷ []

abbrev options : Options
options = record { digits = 6; period_seconds = 30; window = 1 }

-- The text "MY", of the byte 102.
known : decode plain (77 ∷ 89 ∷ []) ≡ some (102 ∷ [])
unfolding decode decode_from drop_spaces strip_padding index_of
known = refl

verify_window_example :
    (verify plain hmac options (77 ∷ 89 ∷ []) token 90000 ≡ some true)
    ↔ ((k : ℕ) × (3 ≤ k + 1) × (k ≤ 3 + 1) × (token ≡ code hmac 6 (102 ∷ []) k))
verify_window_example =
    verify_window plain hmac options (77 ∷ 89 ∷ []) (102 ∷ []) token 90000 known (omega arith)
      (omega arith)

accepted : verify plain hmac options (77 ∷ 89 ∷ []) token 90000 ≡ some true
unfolding verify Codes.scan Codes.generate Codes.padded Codes.truncate Codes.big_endian decode
    decode_from drop_spaces strip_padding index_of
accepted = refl

-- "foobar", of RFC 4648.
foobar_encoded :
    encode (102 ∷ 111 ∷ 111 ∷ 98 ∷ 97 ∷ 114 ∷ [])
    ≡ 77 ∷ 90 ∷ 88 ∷ 87 ∷ 54 ∷ 89 ∷ 84 ∷ 66 ∷ 79 ∷ 73 ∷ []
unfolding encode encode_from letters_of bits_left letter
foobar_encoded = refl
