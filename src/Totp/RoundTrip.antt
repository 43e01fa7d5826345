-- ===== src/Totp/RoundTrip.antt =====
-- What `encodeBase32` of src/infrastructure/security/totp.ts writes, `decodeBase32` reads.
use new_erp_final.Common.{
  ℕ, ◌+◌, ◌-◌, ◌*◌, ◌/◌, ◌%◌, ◌^◌, ◌<◌, ◌≡◌, refl, ap, ◌∙◌, Bool, true, false, ◌&&◌, Option, none,
  some, List, [], ◌∷◌, arith, ltb, leb,
}
use new_erp_final.Totp.Base32.{
  letter, index_of, shift_in, letters_of, bits_left, encode_from, decode_from,
}

pub index_of-letter : (d : ℕ) → d < 32 → index_of (letter d) ≡ some d
unfolding index_of letter
index_of-letter d small = ground arith

-- One byte before what the rest decodes to.
abbrev byte_then : ℕ → Option (List ℕ) → Option (List ℕ)
byte_then b none = none
byte_then b (some bs) = some (b ∷ bs)

-- A letter that does not fill a byte, and one that does.
read_part :
    (v bits d : ℕ) (cs : List ℕ)
    → d < 32
    → leb 8 (bits + 5) ≡ false
    → decode_from v bits (letter d ∷ cs) ≡ decode_from (shift_in 5 v d) (bits + 5) cs
unfolding decode_from
read_part v bits d cs small part = ground (arith, index_of-letter d small)

read_full :
    (v bits d : ℕ) (cs : List ℕ)
    → d < 32
    → leb 8 (bits + 5) ≡ true
    → decode_from v bits (letter d ∷ cs)
      ≡ byte_then
          (shift_in 5 v d / 2 ^ (bits + 5 - 8) % 256)
          (decode_from (shift_in 5 v d) (bits + 5 - 8) cs)
unfolding decode_from
read_full v bits d cs small full = ground (arith, index_of-letter d small)

-- The byte that the reader is about to complete: the bits that it has and those that the writer
-- still holds.
abbrev pending : ℕ → ℕ → ℕ → ℕ → ℕ
pending read vd left ve = vd % 2 ^ read * 2 ^ left + ve % 2 ^ left

abbrev next : ℕ → ℕ → ℕ
next = shift_in 8

-- The bits that move when a byte is written, for each number of bits that the writer holds.
write_0 :
    (ve vd b : ℕ) → b < 256 → pending 5 (shift_in 5 vd (next ve b / 2 ^ 3 % 32)) 3 (next ve b) ≡ b
write_0 ve vd b small = omega arith

write_3 :
    (ve vd b : ℕ)
    → b < 256
    → (shift_in 5 vd (next ve b / 2 ^ 6 % 32) / 2 ^ 2 % 256 ≡ pending 5 vd 3 ve)
      × (pending 7
            (shift_in 5 (shift_in 5 vd (next ve b / 2 ^ 6 % 32)) (next ve b / 2 ^ 1 % 32))
            1
            (next ve b)
          ≡ b)
write_3 ve vd b small = (omega arith, omega arith)

write_1 :
    (ve vd b : ℕ)
    → b < 256
    → (shift_in 5 vd (next ve b / 2 ^ 4 % 32) / 2 ^ 4 % 256 ≡ pending 7 vd 1 ve)
      × (pending 4 (shift_in 5 vd (next ve b / 2 ^ 4 % 32)) 4 (next ve b) ≡ b)
write_1 ve vd b small = (omega arith, omega arith)

write_4 :
    (ve vd b : ℕ)
    → b < 256
    → (shift_in 5 vd (next ve b / 2 ^ 7 % 32) / 2 ^ 1 % 256 ≡ pending 4 vd 4 ve)
      × (pending 6
            (shift_in 5 (shift_in 5 vd (next ve b / 2 ^ 7 % 32)) (next ve b / 2 ^ 2 % 32))
            2
            (next ve b)
          ≡ b)
write_4 ve vd b small = (omega arith, omega arith)

write_2 :
    (ve vd b : ℕ)
    → b < 256
    → (shift_in 5 vd (next ve b / 2 ^ 5 % 32) / 2 ^ 3 % 256 ≡ pending 6 vd 2 ve)
      × (shift_in 5 (shift_in 5 vd (next ve b / 2 ^ 5 % 32)) (next ve b / 2 ^ 0 % 32) / 2 ^ 0 % 256
          ≡ b)
write_2 ve vd b small = (omega arith, omega arith)

-- The last letter, for each number of bits that the writer still holds.
last_bits :
    (ve vd : ℕ)
    → (shift_in 5 vd (ve * 2 ^ 2 % 2 ^ 32 % 32) / 2 ^ 2 % 256 ≡ pending 5 vd 3 ve)
      × (shift_in 5 vd (ve * 2 ^ 4 % 2 ^ 32 % 32) / 2 ^ 4 % 256 ≡ pending 7 vd 1 ve)
      × (shift_in 5 vd (ve * 2 ^ 1 % 2 ^ 32 % 32) / 2 ^ 1 % 256 ≡ pending 4 vd 4 ve)
      × (shift_in 5 vd (ve * 2 ^ 3 % 2 ^ 32 % 32) / 2 ^ 3 % 256 ≡ pending 6 vd 2 ve)
last_bits ve vd = (omega arith, omega arith, omega arith, omega arith)

-- What the reader makes of the letters for some bytes, whatever both hold from before: the writer
-- with 0, 3, 1, 4 or 2 bits, and the reader with the rest of a byte.
pub record Reads (bs : List ℕ) : Type 0 where
  pub at_0 : (ve vd : ℕ) → decode_from vd 0 (encode_from ve 0 bs) ≡ some bs
  at_3 : (ve vd : ℕ) → decode_from vd 5 (encode_from ve 3 bs) ≡ some (pending 5 vd 3 ve ∷ bs)
  at_1 : (ve vd : ℕ) → decode_from vd 7 (encode_from ve 1 bs) ≡ some (pending 7 vd 1 ve ∷ bs)
  at_4 : (ve vd : ℕ) → decode_from vd 4 (encode_from ve 4 bs) ≡ some (pending 4 vd 4 ve ∷ bs)
  at_2 : (ve vd : ℕ) → decode_from vd 6 (encode_from ve 2 bs) ≡ some (pending 6 vd 2 ve ∷ bs)

pub mod_lt_32 : (n : ℕ) → n % 32 < 32
mod_lt_32 n = omega arith

end_reads : (v : ℕ) (bits : ℕ) → decode_from v bits [] ≡ some []
unfolding decode_from
end_reads v bits = refl

-- The last letter completes the byte that is pending.
read_last :
    (v bits d b : ℕ)
    → d < 32
    → leb 8 (bits + 5) ≡ true
    → shift_in 5 v d / 2 ^ (bits + 5 - 8) % 256 ≡ b
    → decode_from v bits (letter d ∷ []) ≡ some (b ∷ [])
read_last v bits d b small full is_b =
    read_full v bits d [] small full
    ∙ ap (byte_then (shift_in 5 v d / 2 ^ (bits + 5 - 8) % 256))
        (end_reads (shift_in 5 v d) (bits + 5 - 8))
    ∙ ap (λ x. some (x ∷ [])) is_b

Reads-empty : Reads []
unfolding encode_from decode_from
Reads-empty = record {
  at_0 = λ ve vd. refl;
  at_3 =
      λ ve vd. read_last vd 5 (ve * 2 ^ 2 % 2 ^ 32 % 32) _ (mod_lt_32 _) refl (last_bits ve vd).0;
  at_1 =
      λ ve vd. read_last vd 7 (ve * 2 ^ 4 % 2 ^ 32 % 32) _ (mod_lt_32 _) refl (last_bits ve vd).1;
  at_4 =
      λ ve vd. read_last vd 4 (ve * 2 ^ 1 % 2 ^ 32 % 32) _ (mod_lt_32 _) refl (last_bits ve vd).2;
  at_2 =
      λ ve vd. read_last vd 6 (ve * 2 ^ 3 % 2 ^ 32 % 32) _ (mod_lt_32 _) refl (last_bits ve vd).3;
}

module _ (b : ℕ) (bs : List ℕ) (small : b < 256) (more : Reads bs) where
  cons_0 : (ve vd : ℕ) → decode_from vd 0 (encode_from ve 0 (b ∷ bs)) ≡ some (b ∷ bs)
  unfolding encode_from letters_of bits_left
  cons_0 ve vd =
      let n = next ve b in
      let d = n / 2 ^ 3 % 32 in
      read_part vd 0 d (encode_from n 3 bs) (mod_lt_32 _) refl
      ∙ more.at_3 n (shift_in 5 vd d)
      ∙ ap (λ x. some (x ∷ bs)) (write_0 ve vd b small)

  cons_3 :
      (ve vd : ℕ) → decode_from vd 5 (encode_from ve 3 (b ∷ bs)) ≡ some (pending 5 vd 3 ve ∷ b ∷ bs)
  unfolding encode_from letters_of bits_left
  cons_3 ve vd =
      let n = next ve b in
      let d = n / 2 ^ 6 % 32 in
      let e = n / 2 ^ 1 % 32 in
      let v = shift_in 5 vd d in
      let w = write_3 ve vd b small in
      read_full vd 5 d (letter e ∷ encode_from n 1 bs) (mod_lt_32 _) refl
      ∙ ap (byte_then (v / 2 ^ 2 % 256))
          (read_part v 2 e (encode_from n 1 bs) (mod_lt_32 _) refl ∙ more.at_1 n (shift_in 5 v e))
      ∙ ap (λ x. some (v / 2 ^ 2 % 256 ∷ x ∷ bs)) w.1
      ∙ ap (λ x. some (x ∷ b ∷ bs)) w.0

  cons_1 :
      (ve vd : ℕ) → decode_from vd 7 (encode_from ve 1 (b ∷ bs)) ≡ some (pending 7 vd 1 ve ∷ b ∷ bs)
  unfolding encode_from letters_of bits_left
  cons_1 ve vd =
      let n = next ve b in
      let d = n / 2 ^ 4 % 32 in
      let v = shift_in 5 vd d in
      let w = write_1 ve vd b small in
      read_full vd 7 d (encode_from n 4 bs) (mod_lt_32 _) refl
      ∙ ap (byte_then (v / 2 ^ 4 % 256)) (more.at_4 n v)
      ∙ ap (λ x. some (v / 2 ^ 4 % 256 ∷ x ∷ bs)) w.1
      ∙ ap (λ x. some (x ∷ b ∷ bs)) w.0

  cons_4 :
      (ve vd : ℕ) → decode_from vd 4 (encode_from ve 4 (b ∷ bs)) ≡ some (pending 4 vd 4 ve ∷ b ∷ bs)
  unfolding encode_from letters_of bits_left
  cons_4 ve vd =
      let n = next ve b in
      let d = n / 2 ^ 7 % 32 in
      let e = n / 2 ^ 2 % 32 in
      let v = shift_in 5 vd d in
      let w = write_4 ve vd b small in
      read_full vd 4 d (letter e ∷ encode_from n 2 bs) (mod_lt_32 _) refl
      ∙ ap (byte_then (v / 2 ^ 1 % 256))
          (read_part v 1 e (encode_from n 2 bs) (mod_lt_32 _) refl ∙ more.at_2 n (shift_in 5 v e))
      ∙ ap (λ x. some (v / 2 ^ 1 % 256 ∷ x ∷ bs)) w.1
      ∙ ap (λ x. some (x ∷ b ∷ bs)) w.0

  cons_2 :
      (ve vd : ℕ) → decode_from vd 6 (encode_from ve 2 (b ∷ bs)) ≡ some (pending 6 vd 2 ve ∷ b ∷ bs)
  unfolding encode_from letters_of bits_left
  cons_2 ve vd =
      let n = next ve b in
      let d = n / 2 ^ 5 % 32 in
      let e = n / 2 ^ 0 % 32 in
      let v = shift_in 5 vd d in
      let w = write_2 ve vd b small in
      read_full vd 6 d (letter e ∷ encode_from n 0 bs) (mod_lt_32 _) refl
      ∙ ap (byte_then (v / 2 ^ 3 % 256)) (
          read_full v 3 e (encode_from n 0 bs) (mod_lt_32 _) refl
          ∙ ap (byte_then (shift_in 5 v e / 2 ^ 0 % 256)) (more.at_0 n (shift_in 5 v e)))
      ∙ ap (λ x. some (v / 2 ^ 3 % 256 ∷ x ∷ bs)) w.1
      ∙ ap (λ x. some (x ∷ b ∷ bs)) w.0

  Reads-cons : Reads (b ∷ bs)
  Reads-cons = record { at_0 = cons_0; at_3 = cons_3; at_1 = cons_1; at_4 = cons_4; at_2 = cons_2 }

-- Every number is below 256.
abbrev pub are_bytes : List ℕ → Bool
are_bytes [] = true
are_bytes (b ∷ bs) = ltb b 256 && are_bytes bs

pub all_read : (bs : List ℕ) → are_bytes bs ≡ true → Reads bs
all_read [] h = Reads-empty
all_read (b ∷ bs) h = Reads-cons b bs (ground arith) (all_read bs (ground arith))
