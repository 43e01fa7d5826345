-- ===== src/KeyRing/Tests.antt =====
-- A key ring of three keys, and a package that signs by writing the payload into a number.
use new_erp_final.Common.{
  ℕ, ◌+◌, ltb, ◌≡◌, refl, true, false, ◌&&◌, ==_self, none, some, List, [], ◌∷◌, ◌==◌,
  if◌then◌else◌, arith,
}
use new_erp_final.Transaction.{ok, err, unauthorized}
use new_erp_final.KeyRing.{
  Key, KeyState, active, retired, verification_only, Ring, make_ring, active_keys, trusted_keys,
  has_duplicates, Jwt, Payload, Input, Claims, access, sign_token, verify_token,
}
use new_erp_final.KeyRing.Trust.{IsKeeping, sign_verify}

abbrev key : ℕ → KeyState → Key
key kid state = record { kid = kid; state = state; public_pem = kid; private_pem = some kid }

abbrev keys : List Key
keys = key 1 retired ∷ key 2 active ∷ key 3 verification_only ∷ []

abbrev ring : Ring
ring = record {
  issuer = 77;
  active_key = key 2 active;
  trusted = key 2 active ∷ key 3 verification_only ∷ [];
}

ring_made : make_ring 77 keys ≡ ok ring
unfolding make_ring active_keys trusted_keys has_duplicates
ring_made = refl

-- A token is what was signed, with the private key, the key's identifier and the time at which it
-- expires; the two halves of a pair of keys have one number.
pub record Signed : Type 0 where
  pub payload : Payload
  pub pem : ℕ
  pub kid : ℕ
  pub expires : ℕ

abbrev jwt : Jwt Signed
jwt = record {
  decode = λ t. some (record { is_rs256 = true; kid = some t.kid });
  verify = λ t pem issuer now.
      if t.pem == pem && t.payload.issuer == issuer && ltb now t.expires
      then some t.payload
      else none;
  sign = λ p pem kid life now. record { payload = p; pem = pem; kid = kid; expires = now + life };
}

jwt-IsKeeping : IsKeeping jwt ring
jwt-IsKeeping = record {
  decodes = λ p pem kid life issued. refl;
  verifies = λ p kid life issued now later. ground (arith, ==_self p.issuer);
}

abbrev input : Input
input = record {
  user = 4;
  identity = none;
  tenant = some 1;
  session = 9;
  is_platform = false;
  membership = none;
  expires_in = none;
}

abbrev granted : Claims
granted = record {
  sub = 4;
  tenant = some 1;
  session = 9;
  is_platform = false;
  membership = none;
  token_type = access;
}

-- An hour after it was signed an access token is refused.
sign_verify_example :
    verify_token jwt ring (sign_token jwt ring access input 1000) access 4599
    ≡ (if ltb 4599 (1000 + 3600) then ok granted else err unauthorized)
sign_verify_example =
    sign_verify jwt 77 keys ring access input 1000 4599 jwt-IsKeeping ring_made refl (ground arith)

verify_run : verify_token jwt ring (sign_token jwt ring access input 1000) access 4599 ≡ ok granted
unfolding verify_token sign_token
verify_run = refl

expired_run :
    verify_token jwt ring (sign_token jwt ring access input 1000) access 4600 ≡ err unauthorized
unfolding verify_token sign_token
expired_run = refl
