-- ===== src/Accounts/Counting.antt =====
-- What the failures of a client leave in a credential, and the room that they leave for more: the
-- lockout of src/infrastructure/database/repositories/postgres-platform-repository.ts
-- (`recordFailedIdentityLogin`).
use new_erp_final.Common.{
  ℕ, suc, ◌+◌, ◌*◌, ◌≤◌, ◌≡◌, ◌∙◌, false, some, leb, arith, ◌⊎◌, inl, inr, Bool-cases,
}
use native.Mathlib.Nat.{mul-le-mul_right}
use new_erp_final.Accounts.Rows.{Credential}
use new_erp_final.Accounts.Credentials.{
  LockoutOptions, LoginIdentity, lockout_span, failed_credential, is_locked,
}

module _ (lockout : LockoutOptions) (first : ℕ) where
  -- What `m` failures of the client have left in the credential.
  pub record IsCounted (m clock : ℕ) (c : Credential) : Type 0 where
    pub counted : m ≤ c.failed_attempts
    pub locked :
        lockout.max_failed ≤ c.failed_attempts
        → (until : ℕ) × (c.locked_until ≡ some until)
          × (until ≤ clock + lockout_span lockout)
          × (first + suc m * lockout_span lockout
              ≤ until + lockout.max_failed * lockout_span lockout)

  -- There is room for one more guess as soon as the lock that was read is over.
  abbrev pub IsRoom : ℕ → LoginIdentity → Type 0
  IsRoom m li =
      (suc m ≤ lockout.max_failed)
      ⊎ ((until : ℕ) × (li.locked_until ≡ some until)
          × (first + suc m * lockout_span lockout
              ≤ until + lockout.max_failed * lockout_span lockout))

  pub IsCounted-later :
      (m clock now : ℕ) (c : Credential) → clock ≤ now → IsCounted m clock c → IsCounted m now c
  IsCounted-later m clock now c later h = record {
    counted = h.counted;
    locked = λ full.
        let (until, at, near, bound) = h.locked full in
        (until, at, omega (arith, near, later), bound);
  }

  -- A failure of another client.
  pub IsCounted-other :
      (m clock now : ℕ) (c : Credential)
      → first ≤ now
      → clock ≤ now
      → IsCounted m clock c
      → IsCounted m now (failed_credential lockout now c)
  IsCounted-other m clock now c late later h = record {
    counted = let counted = h.counted in ground (arith, counted);
    locked = λ full. (
      now + lockout_span lockout,
      ground (arith, full),
      omega arith,
      elim (Bool-cases (leb lockout.max_failed c.failed_attempts)) [
        | inl before ↦
            let (until, at, near, bound) = h.locked (ground (arith, before)) in
            omega (arith, near, bound, later)
        | inr few ↦
            let counted = h.counted in
            let fits : suc m ≤ lockout.max_failed = ground (arith, few, counted) in
            let product = mul-le-mul_right (lockout_span lockout) fits in
            omega (arith, product, late)
      ],
    );
  }

  -- The client's own failure.
  pub IsCounted-own :
      (m now : ℕ) (c : Credential)
      → m ≤ c.failed_attempts
      → first + suc m * lockout_span lockout ≤ now + lockout.max_failed * lockout_span lockout
      → IsCounted (suc m) now (failed_credential lockout now c)
  IsCounted-own m now c counted bound = record {
    counted = ground (arith, counted);
    locked = λ full.
        (now + lockout_span lockout, ground (arith, full), omega arith, omega (arith, bound));
  }

  -- What a client reads leaves it room for one more guess once the lock is over.
  pub IsRoom-read :
      (m clock : ℕ) (c : Credential) (li : LoginIdentity)
      → 1 ≤ lockout.max_failed
      → li.locked_until ≡ c.locked_until
      → (m ≡ 0) ⊎ IsCounted m clock c
      → IsRoom m li
  IsRoom-read m clock c li some_tries same (inl none_yet) = inl (ground (arith, none_yet))
  IsRoom-read m clock c li some_tries same (inr h) =
      elim (Bool-cases (leb lockout.max_failed c.failed_attempts)) [
        | inl full ↦
            let (until, at, near, bound) = h.locked (ground (arith, full)) in
            inr (until, same ∙ at, bound)
        | inr few ↦ let counted = h.counted in inl (ground (arith, few, counted))
      ]

  pub room :
      (m : ℕ) (li : LoginIdentity) (now : ℕ)
      → IsRoom m li
      → is_locked li.locked_until now ≡ false
      → first ≤ now
      → first + suc m * lockout_span lockout ≤ now + lockout.max_failed * lockout_span lockout
  room m li now (inl fits) free late =
      let product = mul-le-mul_right (lockout_span lockout) fits in omega (arith, product, late)
  room m li now (inr (until, at, bound)) free late =
      let over : until ≤ now = ground (arith, free, at) in omega (arith, bound, over)

  pub counted_failures :
      (m clock : ℕ) (c : Credential) → (m ≡ 0) ⊎ IsCounted m clock c → m ≤ c.failed_attempts
  counted_failures m clock c (inl none_yet) = ground (arith, none_yet)
  counted_failures m clock c (inr h) = h.counted
