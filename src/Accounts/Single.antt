-- ===== src/Accounts/Single.antt =====
-- A table of tokens of
-- src/infrastructure/database/repositories/postgres-account-security-repository.ts in which a user
-- has at most one open token.
use new_erp_final.Common.{
  ℕ, ◌≡◌, ◌∙◌, false, ◌&&◌, Option, none, some, ◌==◌, arith, inl, inr, Bool-cases, Option-cases,
  ==_sound,
}
use mathlib.Core.Path.{sym}
use new_erp_final.Accounts.Rows.{Token}
use new_erp_final.Accounts.Recovery.{used, renewed, close}

-- A user has at most one token that is not used up.
pub record IsSingle (rows : ℕ → ℕ → Option Token) : Type 0 where
  pub single :
      (tenant a b : ℕ) (k l : Token)
      → rows tenant a ≡ some k
      → rows tenant b ≡ some l
      → k.consumed_at ≡ none
      → l.consumed_at ≡ none
      → k.user ≡ l.user
      → a ≡ b

close_open :
    (user now : ℕ) (o : Option Token) (k : Token)
    → close user now o ≡ some k
    → k.consumed_at ≡ none
    → (o ≡ some k) × (k.user == user ≡ false)
close_open user now none k closed open_yet = ground (arith, closed)
close_open user now (some x) k closed open_yet = elim (Option-cases x.consumed_at) [
  | inl fresh ↦ elim (Bool-cases (x.user == user)) [
    | inl same ↦ ground (arith, closed, open_yet, fresh, same)
    | inr other ↦ (ground (arith, closed, other), ground (arith, closed, other))
  ]
  | inr (at, gone) ↦ ground (arith, closed, open_yet, gone)
]

pub renewed-IsSingle :
    (tenant user hash expires now : ℕ) (rows : ℕ → ℕ → Option Token)
    → IsSingle rows
    → IsSingle (renewed tenant user hash expires now rows)
renewed-IsSingle tenant user hash expires now rows h = record {
  single = λ t a b k l at_a at_b open_k open_l same. elim (Bool-cases (t == tenant)) [
    | inr other ↦
        h.single t a b k l (ground (arith, at_a, other)) (ground (arith, at_b, other)) open_k open_l
          same
    | inl here ↦ elim (Bool-cases (a == hash)) [
      | inl new_a ↦ elim (Bool-cases (b == hash)) [
        | inl new_b ↦ ==_sound a hash new_a ∙ sym (==_sound b hash new_b)
        | inr old_b ↦
            let closed_b : close user now (rows t b) ≡ some l = ground (arith, at_b, here, old_b) in
            let other = (close_open user now (rows t b) l closed_b open_l).1 in
            ground (arith, at_a, here, new_a, other, same)
      ]
      | inr old_a ↦
          let closed_a : close user now (rows t a) ≡ some k = ground (arith, at_a, here, old_a) in
          let (was_a, other_a) = close_open user now (rows t a) k closed_a open_k in
          elim (Bool-cases (b == hash)) [
            | inl new_b ↦ ground (arith, at_b, here, new_b, other_a, same)
            | inr old_b ↦
                let closed_b : close user now (rows t b) ≡ some l =
                  ground (arith, at_b, here, old_b) in
                let was_b = (close_open user now (rows t b) l closed_b open_l).0 in
                h.single t a b k l was_a was_b open_k open_l same
          ]
    ]
  ];
}

used_open :
    (tenant hash now : ℕ) (x : Token) (rows : ℕ → ℕ → Option Token) (t a : ℕ) (k : Token)
    → used tenant hash now x rows t a ≡ some k
    → k.consumed_at ≡ none
    → rows t a ≡ some k
used_open tenant hash now x rows t a k at_a open_k = elim (Bool-cases (t == tenant && a == hash)) [
  | inl here ↦ ground (arith, at_a, open_k, here)
  | inr other ↦ ground (arith, at_a, other)
]

pub used-IsSingle :
    (tenant hash now : ℕ) (x : Token) (rows : ℕ → ℕ → Option Token)
    → IsSingle rows
    → IsSingle (used tenant hash now x rows)
used-IsSingle tenant hash now x rows h = record {
  single = λ t a b k l at_a at_b open_k open_l same.
      h.single t a b k l (used_open tenant hash now x rows t a k at_a open_k)
        (used_open tenant hash now x rows t b l at_b open_l) open_k open_l same;
}
