-- ===== src/Environment.antt =====
-- What the code calls and does not implement: the `uuid` package, the identifiers that the
-- database makes up, and the string functions of the language. A text is a number that stands
-- for it, so these are functions on numbers, of which nothing is assumed.
use new_erp_final.Common.{ℕ, Bool}

pub record Env : Type 0 where
  -- `validate` of the package `uuid`; it refuses the empty string.
  pub is_uuid : ℕ → Bool
  -- `gen_random_uuid()`, at its n-th call.
  pub gen_uuid : ℕ → ℕ
  -- `${a}:${b}`
  pub join : ℕ → ℕ → ℕ
  -- `!text.trim()`, `text.length`, `text.trim()` and `text.trim().toUpperCase()`.
  pub is_blank : ℕ → Bool
  pub text_length : ℕ → ℕ
  pub trim : ℕ → ℕ
  pub trim_upper : ℕ → ℕ

-- The texts that the code writes itself, as the numbers that stand for them.
pub record Texts : Type 0 where
  -- 'SALES_ORDER'
  pub sales_order : ℕ
  -- `sales-order:` and `sales-order-cancel:`
  pub reserve_prefix : ℕ
  pub cancel_prefix : ℕ
