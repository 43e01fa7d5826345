-- ===== src/Accounts/Lockout.antt =====
-- How many passwords a client can try against one identity: the lockout of
-- src/application/services/unified-authentication-service.ts, where the logins of others fall between
-- the statements of the client's.
use new_erp_final.Common.{
  ℕ, suc, ◌+◌, ◌*◌, ◌≤◌, ◌≡◌, refl, ap, ◌∙◌, true, false, some, arith, ◌⊎◌, inl, inr, ◌==◌,
}
use mathlib.Core.Path.{subst, sym}
use new_erp_final.Accounts.Rows.{Credential, Accounts}
use new_erp_final.Accounts.Credentials.{
  LockoutOptions, LoginIdentity, find_login_identity, lockout_span, failed_credential, is_locked,
}
use new_erp_final.Accounts.Login.{Ports, settle}
use new_erp_final.Accounts.Counting.{
  IsCounted, IsRoom, IsCounted-later, IsCounted-other, IsCounted-own, IsRoom-read, room,
  counted_failures,
}
use new_erp_final.Accounts.Attempts.{login_credential, settle_other, settle_wrong}

-- What a client is doing: nothing, or a login that has read the identity, or one whose password is
-- being compared.
pub data Client : Type 0 where
  idle : Client
  waiting : LoginIdentity → Client
  comparing : LoginIdentity → ℕ → Client

module _ (ports : Ports) (lockout : LockoutOptions) where
  module _ (x first last : ℕ) where
    -- The logins of a client against `x`, one after the other, none of which has the password, with
    -- the number of those whose password was compared, what the client is doing and the time. Any
    -- number of logins of others overlap with them: each of their updates falls anywhere.
    pub data Guessing : ℕ → Client → ℕ → Accounts → Type 0 where
      start : {s : Accounts} → Guessing 0 idle first s
      other :
          {n : ℕ} {k : Client} {clock : ℕ} {s : Accounts} (li : LoginIdentity) (password now : ℕ)
          → Guessing n k clock s
          → clock ≤ now
          → ((li.identity == x) ≡ false)
            ⊎ ((li.identity ≡ x) × (ports.verify password li.hash ≡ false))
          → Guessing n k now (settle ports lockout li password now s).1
      read :
          {n clock : ℕ} {s : Accounts} (li : LoginIdentity) (identifier now : ℕ)
          → Guessing n idle clock s
          → clock ≤ now
          → find_login_identity (ports.trim identifier) s ≡ some li
          → li.identity ≡ x
          → Guessing n (waiting li) now s
      refuse :
          {n clock : ℕ} {s : Accounts} (li : LoginIdentity) (now : ℕ)
          → Guessing n (waiting li) clock s
          → clock ≤ now
          → is_locked li.locked_until now ≡ true
          → Guessing n idle now s
      compare :
          {n clock : ℕ} {s : Accounts} (li : LoginIdentity) (password now : ℕ)
          → Guessing n (waiting li) clock s
          → clock ≤ now
          → now ≤ last
          → is_locked li.locked_until now ≡ false
          → ports.verify password li.hash ≡ false
          → Guessing (suc n) (comparing li password) now s
      finish :
          {n clock : ℕ} {s : Accounts} (li : LoginIdentity) (password now : ℕ)
          → Guessing n (comparing li password) clock s
          → clock ≤ now
          → Guessing n idle now (settle ports lockout li password now s).1

    abbrev IsKnown : ℕ → ℕ → Accounts → Type 0
    IsKnown m clock s =
        (c : Credential) × (s.credentials x ≡ some c)
        × (c.active ≡ true)
        × ((m ≡ 0) ⊎ IsCounted lockout first m clock c)

    IsPhase : ℕ → Client → ℕ → Accounts → Type 0
    IsPhase n idle clock s = (n ≡ 0) ⊎ IsKnown n clock s
    IsPhase n (waiting li) clock s =
        (li.identity ≡ x) × IsKnown n clock s × IsRoom lockout first n li
    IsPhase n (comparing li password) clock s =
        (li.identity ≡ x)
        × (ports.verify password li.hash ≡ false)
        × ((m : ℕ) × (n ≡ suc m) × IsKnown m clock s)
        × (first + n * lockout_span lockout ≤ clock + lockout.max_failed * lockout_span lockout)

    record IsHeld (n : ℕ) (k : Client) (clock : ℕ) (s : Accounts) : Type 0 where
      pub bound :
          first + n * lockout_span lockout ≤ last + lockout.max_failed * lockout_span lockout
      pub late : first ≤ clock
      pub phase : IsPhase n k clock s

    IsKnown-other :
        (m clock now : ℕ) (s : Accounts) (li : LoginIdentity) (password : ℕ)
        → first ≤ now
        → clock ≤ now
        → ((li.identity == x) ≡ false)
          ⊎ ((li.identity ≡ x) × (ports.verify password li.hash ≡ false))
        → IsKnown m clock s
        → IsKnown m now (settle ports lockout li password now s).1
    IsKnown-other m clock now s li password late later (inl away) (c, at, on, h) = (
      c,
      settle_other ports lockout x li password now s away ∙ at,
      on,
      elim h [
        | inl none_yet ↦ inl none_yet
        | inr k ↦ inr (IsCounted-later lockout first m clock now c later k)
      ],
    )
    IsKnown-other m clock now s li password late later (inr (here, wrong)) (c, at, on, h) = (
      failed_credential lockout now c,
      settle_wrong ports lockout x li password now s c here wrong at on,
      on,
      elim h [
        | inl none_yet ↦ inl none_yet
        | inr k ↦ inr (IsCounted-other lockout first m clock now c late later k)
      ],
    )

    IsKnown-later :
        (m clock now : ℕ) (s : Accounts) → clock ≤ now → IsKnown m clock s → IsKnown m now s
    IsKnown-later m clock now s later (c, at, on, h) = (
      c,
      at,
      on,
      elim h [
        | inl none_yet ↦ inl none_yet
        | inr k ↦ inr (IsCounted-later lockout first m clock now c later k)
      ],
    )

    IsPhase-other :
        (n : ℕ) (k : Client) (clock now : ℕ) (s : Accounts) (li : LoginIdentity) (password : ℕ)
        → first ≤ now
        → clock ≤ now
        → ((li.identity == x) ≡ false)
          ⊎ ((li.identity ≡ x) × (ports.verify password li.hash ≡ false))
        → IsPhase n k clock s
        → IsPhase n k now (settle ports lockout li password now s).1
    unfolding IsPhase
    IsPhase-other n idle clock now s li password late later who (inl none_yet) = inl none_yet
    IsPhase-other n idle clock now s li password late later who (inr h) =
        inr (IsKnown-other n clock now s li password late later who h)
    IsPhase-other n (waiting mine) clock now s li password late later who (here, h, place) =
        (here, IsKnown-other n clock now s li password late later who h, place)
    IsPhase-other n (comparing mine guess) clock now s li password late later who
          (here, wrong, (m, next, h), place) =
        (
          here,
          wrong,
          (m, next, IsKnown-other m clock now s li password late later who h),
          omega (arith, place, later),
        )

    known_read :
        (n clock now : ℕ) (s : Accounts) (c : Credential)
        → clock ≤ now
        → s.credentials x ≡ some c
        → c.active ≡ true
        → (n ≡ 0) ⊎ IsKnown n clock s
        → (n ≡ 0) ⊎ IsCounted lockout first n now c
    known_read n clock now s c later at on (inl none_yet) = inl none_yet
    known_read n clock now s c later at on (inr (d, at_d, on_d, inl none_yet)) = inl none_yet
    known_read n clock now s c later at on (inr (d, at_d, on_d, inr h)) =
        let same : d ≡ c = ground (arith, at_d, at) in
        inr (
          IsCounted-later lockout first n clock now c later
            (subst (IsCounted lockout first n clock) same h))

    Guessing-IsHeld :
        {n : ℕ} {k : Client} {clock : ℕ} {s : Accounts}
        → 1 ≤ lockout.max_failed
        → first ≤ last
        → Guessing n k clock s
        → IsHeld n k clock s
    unfolding IsPhase
    Guessing-IsHeld tries ordered start = record {
      bound = omega (arith, ordered);
      late = ground arith;
      phase = inl refl;
    }
    Guessing-IsHeld {n} {k} tries ordered
          (other {clock = clock} {s = s} li password now before later who) =
        let h = Guessing-IsHeld tries ordered before in
        let late = h.late in
        let since : first ≤ now = omega (arith, late, later) in
        record {
          bound = h.bound;
          late = since;
          phase = IsPhase-other n k clock now s li password since later who h.phase;
        }
    Guessing-IsHeld {n} tries ordered
          (read {clock = clock} {s = s} li identifier now before later found here) =
        let h = Guessing-IsHeld tries ordered before in
        let late = h.late in
        let (c, held, on, hash, lock) = login_credential (ports.trim identifier) s li found in
        let at : s.credentials x ≡ some c = ap s.credentials (sym here) ∙ held in
        let known = known_read n clock now s c later at on h.phase in
        record {
          bound = h.bound;
          late = omega (arith, late, later);
          phase = (here, (c, at, on, known), IsRoom-read lockout first n now c li tries lock known);
        }
    Guessing-IsHeld {n} tries ordered (refuse {clock = clock} {s = s} li now before later locked) =
        let h = Guessing-IsHeld tries ordered before in
        let late = h.late in
        let (here, known, place) = h.phase in
        record {
          bound = h.bound;
          late = omega (arith, late, later);
          phase = inr (IsKnown-later n clock now s later known);
        }
    Guessing-IsHeld tries ordered
          (compare {n = n} {clock = clock} {s = s} li password now before later early free wrong) =
        let h = Guessing-IsHeld tries ordered before in
        let late = h.late in
        let since : first ≤ now = omega (arith, late, later) in
        let (here, known, place) = h.phase in
        let bound = room lockout first n li now place free since in
        record {
          bound = omega (arith, bound, early);
          late = since;
          phase = (here, wrong, (n, refl, IsKnown-later n clock now s later known), bound);
        }
    Guessing-IsHeld {n} tries ordered
          (finish {clock = clock} {s = s} li password now before later) =
        let h = Guessing-IsHeld tries ordered before in
        let late = h.late in
        let (here, wrong, past, place) = h.phase in
        let (m, next, known) = past in
        let (c, at, on, count) = known in
        let placed =
          subst
            (λ i.
              first + i * lockout_span lockout ≤ clock + lockout.max_failed * lockout_span lockout)
            next place in
        let bound : first + suc m * lockout_span lockout
            ≤ now + lockout.max_failed * lockout_span lockout =
          omega (arith, placed, later) in
        record {
          bound = h.bound;
          late = omega (arith, late, later);
          phase = inr (
            failed_credential lockout now c,
            settle_wrong ports lockout x li password now s c here wrong at on,
            on,
            inr (
                subst (λ i. IsCounted lockout first i now (failed_credential lockout now c))
                  (sym next)
                  (IsCounted-own lockout first m now c
                    (counted_failures lockout first m clock c count) bound)),
          );
        }

    -- Of the logins of one client between two times that follow one another, none of which has the
    -- password of an identity, no more are compared with that password than the allowed number of
    -- failures, and one more for each span of the lockout that fits between the two times. The
    -- client may be refused in between, and any logins of others may overlap with its own, as long
    -- as none of them has the password.
    pub guesses_bound :
        (n : ℕ) (k : Client) (clock : ℕ) (s : Accounts)
        → 1 ≤ lockout.max_failed
        → first ≤ last
        → Guessing n k clock s
        → first + n * lockout_span lockout ≤ last + lockout.max_failed * lockout_span lockout
    guesses_bound n k clock s tries ordered run = (Guessing-IsHeld tries ordered run).bound
