-- ===== src/KeyRing/Trust.antt =====
-- src/infrastructure/security/rotating-jwt-key-ring.ts: which keys are trusted, and which tokens.
use new_erp_final.Common.{
  ℕ, ◌+◌, ◌≤◌, ◌≡◌, ◌≢◌, ◌∙◌, ap, true, false, ◌||◌, Option, none, some, ltb, if◌then◌else◌, List,
  [], ◌∷◌, arith, ◌==◌, find, is_some, member, Bool-cases, Option-cases, inl, inr, ==_sound,
}
use new_erp_final.Transaction.{Result, ok, err, unauthorized}
use new_erp_final.KeyRing.{
  Key, Ring, make_ring, active_keys, trusted_keys, has_duplicates, is_retired, is_active, Jwt,
  Header, Payload, Input, Claims, TokenType, sign_token, verify_token, payload_of, or_value,
  lifetime, claims_of,
}

-- A key that is trusted is not retired.
trusted_not_retired :
    (keys : List Key) (id : ℕ) {k : Key}
    → find (λ j. j.kid == id) (trusted_keys keys) ≡ some k
    → is_retired k ≡ false
unfolding trusted_keys
trusted_not_retired [] id e = ground arith
trusted_not_retired (j ∷ keys) id {k} e = ground (arith, trusted_not_retired keys id {k = k})

-- A key that is found by its identifier among all keys, and is not retired, is trusted.
found_trusted :
    (keys : List Key) (id : ℕ) {k : Key}
    → find (λ j. j.kid == id) keys ≡ some k
    → is_retired k ≡ false
    → find (λ j. j.kid == id) (trusted_keys keys) ≡ some k
unfolding trusted_keys
found_trusted [] id e h = ground arith
found_trusted (j ∷ keys) id {k} e h = ground (arith, found_trusted keys id {k = k})

active_member :
    (keys : List Key) {k : Key} {ks : List Key}
    → active_keys keys ≡ k ∷ ks
    → member (λ j. j.kid == k.kid) keys ≡ true
unfolding active_keys
active_member [] e = ground arith
active_member (j ∷ keys) {k} {ks} e = elim (Bool-cases (is_active j)) [
  | inl b ↦ ground arith
  | inr b ↦ ground (arith, active_member keys {k = k} {ks = ks})
]

active_found :
    (keys : List Key) {k : Key}
    → has_duplicates keys ≡ false
    → active_keys keys ≡ k ∷ []
    → find (λ j. j.kid == k.kid) keys ≡ some k
unfolding active_keys has_duplicates
active_found [] h e = ground arith
active_found (j ∷ keys) {k} h e = elim (Bool-cases (is_active j)) [
  | inl b ↦ ground arith
  | inr b ↦ elim (Bool-cases (j.kid == k.kid)) [
    | inl same ↦
        let present = active_member keys {k = k} {ks = []} (ground arith) in
        let id = ==_sound j.kid k.kid same in
        ground (arith, present, ap (λ n. member (λ x. x.kid == n) keys) id)
    | inr other ↦ ground (arith, active_found keys {k = k} (ground arith) (ground arith))
  ]
]

active_head :
    (keys : List Key) {k : Key} {ks : List Key} → active_keys keys ≡ k ∷ ks → is_active k ≡ true
unfolding active_keys
active_head [] e = ground arith
active_head (j ∷ keys) {k} {ks} e = elim (Bool-cases (is_active j)) [
  | inl b ↦ ground arith
  | inr b ↦ active_head keys {k = k} {ks = ks} (ground arith)
]

made_of :
    (issuer : ℕ) (keys : List Key) {ring : Ring}
    → make_ring issuer keys ≡ ok ring
    → (active_keys keys ≡ ring.active_key ∷ [])
      × (has_duplicates keys ≡ false)
      × (is_some ring.active_key.private_pem ≡ true)
      × (ring.trusted ≡ trusted_keys keys)
      × (ring.issuer ≡ issuer)
unfolding make_ring
made_of issuer keys {ring} e = ground arith

-- A key ring that is made trusts its active key under the key's identifier, and the key can sign.
make_ring_active :
    (issuer : ℕ) (keys : List Key) {ring : Ring}
    → make_ring issuer keys ≡ ok ring
    → (find (λ j. j.kid == ring.active_key.kid) ring.trusted ≡ some ring.active_key)
      × (is_some ring.active_key.private_pem ≡ true)
      × (is_retired ring.active_key ≡ false)
      × (ring.issuer ≡ issuer)
make_ring_active issuer keys {ring} e =
    let (alone, unique, signs, trusted, named) = made_of issuer keys {ring = ring} e in
    let live = active_head keys {k = ring.active_key} {ks = []} alone in
    let kept =
      found_trusted keys ring.active_key.kid (active_found keys {k = ring.active_key} unique alone)
        (ground arith) in
    (
      ap (λ (ks : List Key). find (λ j. j.kid == ring.active_key.kid) ks) trusted ∙ kept,
      signs,
      ground arith,
      named,
    )

module _ {Token : Type 0} (jwt : Jwt Token) where
  -- What the service makes of the answer of the keeping.
  abbrev pub judged : TokenType → Option Payload → Result Claims
  judged kind none = err unauthorized
  judged kind (some p) = claims_of jwt kind p

-- What a package is documented to do: it reads the header that it has written, and it verifies a
-- token under the other half of the pair of keys from the time of issue until the token expires,
-- and not after.
pub record IsKeeping {Token : Type 0} (jwt : Jwt Token) (ring : Ring) : Type 0 where
  pub decodes :
      (p : Payload) (pem kid life issued : ℕ)
      → jwt.decode (jwt.sign p pem kid life issued)
        ≡ some (record { is_rs256 = true; kid = some kid })
  pub verifies :
      (p : Payload) (kid life issued now : ℕ)
      → issued ≤ now
      → jwt.verify
          (jwt.sign p (or_value ring.active_key.private_pem 0) kid life issued)
          ring.active_key.public_pem
          p.issuer
          now
        ≡ (if ltb now (issued + life) then some p else none)

module _ {Token : Type 0} (jwt : Jwt Token) (issuer : ℕ) (keys : List Key) (ring : Ring) where
  verify_payload :
      (token : Token) (kid now : ℕ) (other : TokenType) {k : Key}
      → jwt.decode token ≡ some (record { is_rs256 = true; kid = some kid })
      → find (λ j. j.kid == kid) ring.trusted ≡ some k
      → verify_token jwt ring token other now
        ≡ judged jwt other (jwt.verify token k.public_pem ring.issuer now)
  unfolding verify_token
  verify_payload token kid now other {k} d f =
      elim (Option-cases (jwt.verify token k.public_pem ring.issuer now)) [
        | inl v ↦ ground arith
        | inr (p, v) ↦ ground arith
      ]

  -- A signed token that comes in is judged by its payload, as long as it has not expired.
  verify_signed :
      (kind other : TokenType) (i : Input) (issued now : ℕ)
      → IsKeeping jwt ring
      → make_ring issuer keys ≡ ok ring
      → issued ≤ now
      → verify_token jwt ring (sign_token jwt ring kind i issued) other now
        ≡ judged jwt other (
            if ltb now (issued + or_value i.expires_in (lifetime kind))
            then some (payload_of jwt ring kind i)
            else none)
  unfolding sign_token
  verify_signed kind other i issued now keeping made later =
      let (trusted, signs, live, named) = make_ring_active issuer keys made in
      let p = payload_of jwt ring kind i in
      let life = or_value i.expires_in (lifetime kind) in
      let pem = or_value ring.active_key.private_pem 0 in
      let d = keeping.decodes p pem ring.active_key.kid life issued in
      let q = keeping.verifies p ring.active_key.kid life issued now later in
      verify_payload _ ring.active_key.kid now other {k = ring.active_key} d trusted
      ∙ ap (judged jwt other) q

  -- A token that the service signs is accepted as what it is, with the claims that were asked for,
  -- from its issue until its lifetime is over, which is the given one or that of its type; from
  -- then on it is refused. The package verifies what it signed until it expires.
  pub sign_verify :
      (kind : TokenType) (i : Input) (issued now : ℕ)
      → IsKeeping jwt ring
      → make_ring issuer keys ≡ ok ring
      → (i.is_platform || is_some i.tenant) ≡ true
      → issued ≤ now
      → verify_token jwt ring (sign_token jwt ring kind i issued) kind now ≡ (
          if ltb now (issued + or_value i.expires_in (lifetime kind))
          then ok (record {
            sub = or_value i.identity i.user;
            tenant = i.tenant;
            session = i.session;
            is_platform = i.is_platform;
            membership = i.membership;
            token_type = kind;
          })
          else err unauthorized)
  sign_verify kind i issued now keeping made scope later =
      verify_signed kind kind i issued now keeping made later ∙ ground arith

  -- A refresh token is no access token, and an access token no refresh token.
  verify_other_type :
      (kind other : TokenType) (i : Input) (issued now : ℕ)
      → IsKeeping jwt ring
      → make_ring issuer keys ≡ ok ring
      → kind ≢ other
      → issued ≤ now
      → verify_token jwt ring (sign_token jwt ring kind i issued) other now ≡ err unauthorized
  verify_other_type kind other i issued now keeping made differ later =
      verify_signed kind other i issued now keeping made later ∙ ground arith

  -- A token is accepted only under a key of the configuration that is not retired and bears the
  -- identifier of the token's header, and only if the package verifies it with that key.
  verify_token_trusted :
      (token : Token) (kind : TokenType) (now : ℕ) {c : Claims}
      → make_ring issuer keys ≡ ok ring
      → verify_token jwt ring token kind now ≡ ok c
      → (h : Header) × (kid : ℕ) × (k : Key) × (p : Payload) × (jwt.decode token ≡ some h)
        × (h.is_rs256 ≡ true)
        × (h.kid ≡ some kid)
        × (find (λ j. j.kid == kid) (trusted_keys keys) ≡ some k)
        × (is_retired k ≡ false)
        × (jwt.verify token k.public_pem issuer now ≡ some p)
        × (p.token_type ≡ some kind)
        × (p.sub ≡ some c.sub)
        × (p.session ≡ some c.session)
  unfolding verify_token
  verify_token_trusted token kind now {c} made e =
      let (alone, unique, signs, trusted, named) = made_of issuer keys {ring = ring} made in
      elim (Option-cases (jwt.decode token)) [
        | inl d ↦ ground arith
        | inr (h, d) ↦ elim (Option-cases h.kid) [
          | inl n ↦ ground arith
          | inr (kid, n) ↦ elim (Option-cases (find (λ j. j.kid == kid) (trusted_keys keys))) [
            | inl f ↦ ground arith
            | inr (k, f) ↦ elim (Option-cases (jwt.verify token k.public_pem issuer now)) [
              | inl v ↦ ground arith
              | inr (p, v) ↦ (
                h,
                kid,
                k,
                p,
                d,
                ground arith,
                n,
                f,
                trusted_not_retired keys kid f,
                v,
                ground arith,
                ground arith,
                ground arith,
              )
            ]
          ]
        ]
      ]
