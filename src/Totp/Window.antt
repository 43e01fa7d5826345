-- ===== src/Totp/Window.antt =====
-- Which codes `verify` of src/infrastructure/security/totp.ts accepts.
use new_erp_final.Common.{
  ℕ, zero, suc, ◌+◌, ◌-◌, ◌*◌, ◌/◌, ◌%◌, ◌^◌, ◌≤◌, ◌<◌, ◌≡◌, refl, ap, ◌∙◌, ◌↔◌, true, some, List,
  [], ◌∷◌, ◌++◌, length, append_length, arith, inl, inr, Bool-cases,
}
use new_erp_final.Totp.Base32.{Letters, decode}
use new_erp_final.Totp.Codes.{
  Hmac, padded, truncate, big_endian, generate, are_digits, same_text, Options, scan, verify,
}

same_text_sound : (cs ds : List ℕ) → same_text cs ds ≡ true → cs ≡ ds
same_text_sound [] [] h = refl
same_text_sound (c ∷ cs) (d ∷ ds) h = ground (arith, same_text_sound cs ds)
same_text_sound [] (d ∷ ds) h = cc
same_text_sound (c ∷ cs) [] h = cc

same_text_self : (cs : List ℕ) → same_text cs cs ≡ true
same_text_self [] = refl
same_text_self (c ∷ cs) = ground (arith, same_text_self cs)

length-padded : (k n : ℕ) → length (padded k n) ≡ k
unfolding padded
length-padded zero n = refl
length-padded (suc k) n =
    append_length (padded k (n / 10)) ((48 + n % 10) ∷ [])
    ∙ ap (λ l. l + 1) (length-padded k (n / 10))
    ∙ omega arith

are_digits-append :
    (cs ds : List ℕ) → are_digits cs ≡ true → are_digits ds ≡ true → are_digits (cs ++ ds) ≡ true
are_digits-append [] ds h k = k
are_digits-append (c ∷ cs) ds h k = ground (arith, are_digits-append cs ds)

are_digits-padded : (k n : ℕ) → are_digits (padded k n) ≡ true
unfolding padded
are_digits-padded zero n = refl
are_digits-padded (suc k) n =
    are_digits-append (padded k (n / 10)) ((48 + n % 10) ∷ []) (are_digits-padded k (n / 10))
      (ground arith)

-- The code of a counter under a key.
abbrev pub code : Hmac → ℕ → List ℕ → ℕ → List ℕ
code hmac digits key counter =
    padded digits (truncate (hmac key (big_endian 8 counter)) % 10 ^ digits)

module _ (letters : Letters) (hmac : Hmac) (options : Options) (secret key token : List ℕ)
    (counter : ℕ) (known : decode letters secret ≡ some key) where
  abbrev code_at : ℕ → List ℕ
  code_at j = code hmac options.digits key (counter + j - options.window)

  generate_code :
      (n : ℕ)
      → generate letters hmac secret n options.digits ≡ some (code hmac options.digits key n)
  unfolding generate
  generate_code n = ground (arith, known)

  scan_sound :
      (n i : ℕ)
      → scan letters hmac options secret token counter n i ≡ some true
      → (j : ℕ) × (options.window ≤ counter + j) × (i ≤ j) × (j < i + n) × (token ≡ code_at j)
  unfolding scan
  scan_sound zero i e = ground arith
  scan_sound (suc n) i e = elim (Bool-cases (same_text token (code_at i))) [
    | inl equal ↦ (
      i,
      ground (arith, generate_code (counter + i - options.window)),
      omega arith,
      omega arith,
      same_text_sound token (code_at i) equal,
    )
    | inr other ↦
        let (j, late, after, before, equal) =
          scan_sound n (i + 1) (ground (arith, generate_code (counter + i - options.window))) in
        (j, late, omega (arith, after), omega (arith, before), equal)
  ]

  scan_complete :
      (n i j : ℕ)
      → options.window ≤ counter + i
      → i ≤ j
      → j < i + n
      → token ≡ code_at j
      → scan letters hmac options secret token counter n i ≡ some true
  unfolding scan
  scan_complete zero i j late after before equal = ground arith
  scan_complete (suc n) i j late after before equal =
      elim (Bool-cases (same_text token (code_at i))) [
        | inl found ↦ ground (arith, generate_code (counter + i - options.window))
        | inr other ↦ ground (
          arith,
          generate_code (counter + i - options.window),
          scan_complete n (i + 1) j,
          same_text_self token,
          ap code_at {x = i} {y = j},
        )
      ]

-- The counter of a time in milliseconds.
abbrev pub counter_at : Options → ℕ → ℕ
counter_at options now = now / (1000 * options.period_seconds)

-- A code is accepted exactly if it is the code of a counter that is at most the window away from
-- the present one. The secret is Base32, a code has at least one digit, and the window does not
-- reach back beyond the counter 0.
pub verify_window :
    (letters : Letters) (hmac : Hmac) (options : Options) (secret key token : List ℕ) (now : ℕ)
    → decode letters secret ≡ some key
    → 0 < options.digits
    → options.window ≤ counter_at options now
    → (verify letters hmac options secret token now ≡ some true) ↔ (
        (k : ℕ) × (counter_at options now ≤ k + options.window)
        × (k ≤ counter_at options now + options.window)
        × (token ≡ code hmac options.digits key k))
unfolding verify
verify_window letters hmac options secret key token now known some_digits late = (accepted, accepts)
  where
    accepted :
        verify letters hmac options secret token now ≡ some true
        → (k : ℕ) × (counter_at options now ≤ k + options.window)
          × (k ≤ counter_at options now + options.window)
          × (token ≡ code hmac options.digits key k)
    accepted e =
        let (j, in_reach, after, before, equal) =
          scan_sound letters hmac options secret key token (counter_at options now) known
            (2 * options.window + 1) 0 (ground arith) in
        (
          counter_at options now + j - options.window,
          omega (arith, in_reach),
          omega (arith, before),
          equal,
        )

    accepts :
        (k : ℕ) × (counter_at options now ≤ k + options.window)
          × (k ≤ counter_at options now + options.window)
          × (token ≡ code hmac options.digits key k)
        → verify letters hmac options secret token now ≡ some true
    accepts (k, low, high, equal) =
        let n = truncate (hmac key (big_endian 8 k)) % 10 ^ options.digits in
        let found =
          scan_complete letters hmac options secret key token (counter_at options now) known
            (2 * options.window + 1) 0 (k + options.window - counter_at options now)
            (omega (arith, late)) (omega arith) (omega (arith, high, low))
            (equal ∙ ap (code hmac options.digits key) (omega (arith, low, late))) in
        ground (
          arith,
          found,
          ap are_digits equal,
          ap length equal,
          are_digits-padded options.digits n,
          length-padded options.digits n,
        )
