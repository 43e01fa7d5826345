-- ===== src/Totp/Secrets.antt =====
-- A secret that `encodeBase32` of src/infrastructure/security/totp.ts has written is read back by
-- `decodeBase32`, which also changes the case and drops padding and space.
use new_erp_final.Common.{
  ℕ, zero, suc, ◌+◌, ◌-◌, ◌*◌, ◌/◌, ◌%◌, ◌^◌, ◌≡◌, refl, ap, ◌∙◌, Bool, true, false, ◌&&◌, some,
  List, [], ◌∷◌, ◌++◌, arith, is_some,
}
use new_erp_final.Totp.Base32.{
  Letters, letter, index_of, shift_in, letters_of, bits_left, encode_from, encode, decode_from,
  decode, strip_padding, drop_spaces,
}
use new_erp_final.Totp.RoundTrip.{are_bytes, all_read, index_of-letter, mod_lt_32}

abbrev pub are_letters : List ℕ → Bool
are_letters [] = true
are_letters (c ∷ cs) = is_some (index_of c) && are_letters cs

-- What the language documents of the letters of the alphabet: upper case leaves a text of them as
-- it is, and none of them is a space.
pub record IsPlain (letters : Letters) : Type 0 where
  pub upper_leaves : (cs : List ℕ) → are_letters cs ≡ true → letters.upper cs ≡ cs
  pub no_space : (c : ℕ) → is_some (index_of c) ≡ true → letters.is_space c ≡ false

are_letters-append :
    (cs ds : List ℕ) → are_letters cs ≡ true → are_letters ds ≡ true → are_letters (cs ++ ds) ≡ true
are_letters-append [] ds h k = k
are_letters-append (c ∷ cs) ds h k = ground (arith, are_letters-append cs ds)

is_letter : (n : ℕ) → is_some (index_of (letter (n % 32))) ≡ true
is_letter n = ap is_some (index_of-letter (n % 32) (mod_lt_32 n))

are_letters-letters_of : (value bits : ℕ) → are_letters (letters_of value bits) ≡ true
unfolding letters_of
are_letters-letters_of value (suc (suc (suc (suc (suc n))))) =
    ground (arith, is_letter (value / 2 ^ n), are_letters-letters_of value n)
are_letters-letters_of value zero = refl
are_letters-letters_of value (suc zero) = refl
are_letters-letters_of value (suc (suc zero)) = refl
are_letters-letters_of value (suc (suc (suc zero))) = refl
are_letters-letters_of value (suc (suc (suc (suc zero)))) = refl

are_letters-encode_from :
    (value bits : ℕ) (bs : List ℕ) → are_letters (encode_from value bits bs) ≡ true
unfolding encode_from
are_letters-encode_from value bits [] = ground (arith, is_letter (value * 2 ^ (5 - bits) % 2 ^ 32))
are_letters-encode_from value bits (b ∷ bs) =
    are_letters-append (letters_of (shift_in 8 value b) (bits + 8)) _
      (are_letters-letters_of (shift_in 8 value b) (bits + 8))
      (are_letters-encode_from (shift_in 8 value b) (bits_left (bits + 8)) bs)

-- The sign `=` is no letter.
strip_padding_letters : (cs : List ℕ) → are_letters cs ≡ true → strip_padding cs ≡ cs
unfolding strip_padding index_of
strip_padding_letters [] h = refl
strip_padding_letters (c ∷ []) h = ground arith
strip_padding_letters (c ∷ d ∷ cs) h = ground (arith, strip_padding_letters (d ∷ cs))

drop_spaces_letters :
    (letters : Letters) (cs : List ℕ)
    → IsPlain letters
    → are_letters cs ≡ true
    → drop_spaces letters cs ≡ cs
unfolding drop_spaces
drop_spaces_letters letters [] plain h = refl
drop_spaces_letters letters (c ∷ cs) plain h =
    ground (arith, plain.no_space c, drop_spaces_letters letters cs plain)

-- A secret is read back exactly as it was written: encoding any bytes and decoding the text gives
-- the bytes, however many there are.
pub decode-encode :
    (letters : Letters) (bs : List ℕ)
    → IsPlain letters
    → are_bytes bs ≡ true
    → decode letters (encode bs) ≡ some bs
unfolding decode encode
decode-encode letters bs plain bytes =
    let cs = encode_from 0 0 bs in
    let h = are_letters-encode_from 0 0 bs in
    ap (λ t. decode_from 0 0 (drop_spaces letters (strip_padding t))) (plain.upper_leaves cs h)
    ∙ ap (λ t. decode_from 0 0 (drop_spaces letters t)) (strip_padding_letters cs h)
    ∙ ap (decode_from 0 0) (drop_spaces_letters letters cs plain h)
    ∙ (all_read bs bytes).at_0 0 0
