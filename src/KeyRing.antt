-- ===== src/KeyRing.antt =====
-- src/infrastructure/security/rotating-jwt-key-ring.ts: the checks on the configured keys, the
-- signing of a token and the checks on a token that comes in. The package `jsonwebtoken` is a
-- parameter; key material, identifiers and texts are numbers. The key set that is published for
-- other services is left out.
mod Tests
pub mod Trust
use new_erp_final.Common.{
  ℕ, zero, suc, ◌+◌, ◌*◌, ◌≡◌, Bool, true, false, not, ◌&&◌, ◌||◌, Option, none, some, List, [],
  ◌∷◌, ◌==◌, find, member, length, is_some, if◌then◌else◌,
}
use new_erp_final.Transaction.{Result, ok, err, Error, unauthorized, runtime}

pub data KeyState : Type 0 where
  active verification_only retired : KeyState

pub record Key : Type 0 where
  pub kid : ℕ
  pub state : KeyState
  pub public_pem : ℕ
  pub private_pem : Option ℕ

pub data TokenType : Type 0 where
  access refresh : TokenType

-- The payload of a token; a field that is missing or empty is `none`.
pub record Payload : Type 0 where
  pub sub : Option ℕ
  pub tenant : Option ℕ
  pub session : Option ℕ
  pub is_platform : Bool
  pub membership : Option ℕ
  pub token_type : Option TokenType
  pub issuer : ℕ

pub record Header : Type 0 where
  pub is_rs256 : Bool
  pub kid : Option ℕ

-- `decode`, `jwt.verify` with a public key and an issuer, and `jwt.sign` with a private key, the
-- key's identifier and the seconds to its expiry. Both read the clock, whose time in seconds is
-- their last argument.
pub record Jwt (Token : Type 0) : Type 0 where
  pub decode : Token → Option Header
  pub verify : Token → ℕ → ℕ → ℕ → Option Payload
  pub sign : Payload → ℕ → ℕ → ℕ → ℕ → Token

-- The user, the identity and the session are not empty.
pub record Input : Type 0 where
  pub user : ℕ
  pub identity : Option ℕ
  pub tenant : Option ℕ
  pub session : ℕ
  pub is_platform : Bool
  pub membership : Option ℕ
  pub expires_in : Option ℕ

pub record Claims : Type 0 where
  pub sub : ℕ
  pub tenant : Option ℕ
  pub session : ℕ
  pub is_platform : Bool
  pub membership : Option ℕ
  pub token_type : TokenType

pub record Ring : Type 0 where
  pub issuer : ℕ
  pub active_key : Key
  pub trusted : List Key

abbrev pub is_active : Key → Bool
is_active k = elim k.state [ active ↦ true | _ ↦ false ]

abbrev pub is_retired : Key → Bool
is_retired k = elim k.state [ retired ↦ true | _ ↦ false ]

unfoldable pub active_keys : List Key → List Key
active_keys [] = []
active_keys (k ∷ ks) = if is_active k then k ∷ active_keys ks else active_keys ks

unfoldable pub trusted_keys : List Key → List Key
trusted_keys [] = []
trusted_keys (k ∷ ks) = if is_retired k then trusted_keys ks else k ∷ trusted_keys ks

-- Whether a key has the identifier of an earlier one.
unfoldable pub has_duplicates : List Key → Bool
has_duplicates [] = false
has_duplicates (k ∷ ks) = member (λ j. j.kid == k.kid) ks || has_duplicates ks

-- The constructor.
unfoldable pub make_ring : ℕ → List Key → Result Ring
make_ring issuer keys = elim (active_keys keys) [
  | [] ↦ err runtime
  | k ∷ [] ↦
      if not (is_some k.private_pem)
      then err runtime
      else (if has_duplicates keys
          then err runtime
          else ok (record { issuer = issuer; active_key = k; trusted = trusted_keys keys }))
  | k ∷ j ∷ ks ↦ err runtime
]

abbrev pub same_type : TokenType → Option TokenType → Bool
same_type access (some access) = true
same_type refresh (some refresh) = true
same_type _ _ = false

abbrev pub or_value : Option ℕ → ℕ → ℕ
or_value none b = b
or_value (some a) b = a

abbrev pub lifetime : TokenType → ℕ
lifetime access = 60 * 60
lifetime refresh = 60 * 60 * 24 * 14

module _ {Token : Type 0} (jwt : Jwt Token) where
  abbrev pub payload_of : Ring → TokenType → Input → Payload
  payload_of ring kind i = record {
    sub = some (or_value i.identity i.user);
    tenant = i.tenant;
    session = some i.session;
    is_platform = i.is_platform;
    membership = i.membership;
    token_type = some kind;
    issuer = ring.issuer;
  }

  -- `signToken`; the constructor has seen that the active key has a private part.
  unfoldable pub sign_token : Ring → TokenType → Input → ℕ → Token
  sign_token ring kind i now =
      jwt.sign (payload_of ring kind i) (or_value ring.active_key.private_pem 0) ring.active_key.kid
        (or_value i.expires_in (lifetime kind)) now

  abbrev pub claims_of : TokenType → Payload → Result Claims
  claims_of kind p = elim p.sub [
    | none ↦ err unauthorized
    | some sub ↦ elim p.session [
      | none ↦ err unauthorized
      | some session ↦
          if (not p.is_platform && not (is_some p.tenant)) || not (same_type kind p.token_type)
          then err unauthorized
          else ok (record {
            sub = sub;
            tenant = p.tenant;
            session = session;
            is_platform = p.is_platform;
            membership = p.membership;
            token_type = kind;
          })
    ]
  ]

  abbrev trusted_key : Ring → Option Header → Option Key
  trusted_key ring none = none
  trusted_key ring (some h) = elim h.kid [
    | none ↦ none
    | some kid ↦ if h.is_rs256 then find (λ k. k.kid == kid) ring.trusted else none
  ]

  -- `verifyToken`
  unfoldable pub verify_token : Ring → Token → TokenType → ℕ → Result Claims
  verify_token ring token kind now = elim (trusted_key ring (jwt.decode token)) [
    | none ↦ err unauthorized
    | some k ↦ elim (jwt.verify token k.public_pem ring.issuer now) [
      | none ↦ err unauthorized
      | some p ↦ claims_of kind p
    ]
  ]
