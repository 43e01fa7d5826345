-- ===== src/Inventory/Balance.antt =====
-- The sums over reservations and movements that the stock rows have to agree with, and the
-- invariant of `inventory_stock`.
use new_erp_final.Common.{
  ℕ, ◌+◌, ◌≡◌, ◌≤◌, refl, Bool, false, Option, none, some, List, [], ◌∷◌, if◌then◌else◌, arith,
  Bool-cases, find, update_first, inl, inr,
}
use mathlib.Core.Path.{subst}
use new_erp_final.Database.{
  reserved, issue, StockKey, Stock, Reservation, Movement, Db, same, same_sound,
}
use new_erp_final.Inventory.Queries.{reservation_key, movement_key, empty_stock}

abbrev pub quantity_at : StockKey → StockKey → ℕ → ℕ
quantity_at k key q = if same key k then q else 0

-- What a reservation holds back of the stock under `k`.
unfoldable pub held : StockKey → Reservation → ℕ
held k r = elim r.status [ reserved ↦ quantity_at k (reservation_key r) r.quantity | _ ↦ 0 ]

pub reserved_sum : StockKey → List Reservation → ℕ
reserved_sum k [] = 0
reserved_sum k (r ∷ rs) = held k r + reserved_sum k rs

unfoldable pub inflow : StockKey → Movement → ℕ
inflow k m = elim m.kind [ issue ↦ 0 | _ ↦ quantity_at k (movement_key m) m.quantity ]

unfoldable pub outflow : StockKey → Movement → ℕ
outflow k m = elim m.kind [ issue ↦ quantity_at k (movement_key m) m.quantity | _ ↦ 0 ]

pub received : StockKey → List Movement → ℕ
received k [] = 0
received k (m ∷ ms) = inflow k m + received k ms

pub issued : StockKey → List Movement → ℕ
issued k [] = 0
issued k (m ∷ ms) = outflow k m + issued k ms

-- A stock row that is not there yet counts as an empty one.
abbrev pub stock_row : Option Stock → Stock
stock_row none = empty_stock
stock_row (some s) = s

pub record IsBalancedAt (db : Db) (k : StockKey) : Type 0 where
  pub ledger : (stock_row (db.stock k)).on_hand + issued k db.movements ≡ received k db.movements
  pub holds : (stock_row (db.stock k)).reserved_quantity ≡ reserved_sum k db.reservations
  pub covered : (stock_row (db.stock k)).reserved_quantity ≤ (stock_row (db.stock k)).on_hand

-- Every stock row agrees with the movements and the open reservations of its key.
abbrev pub IsBalanced : Db → Type 0
IsBalanced db = (k : StockKey) → IsBalancedAt db k

-- To prove something of every key: for the one that an operation touches, and for the others.
pub by_key :
    (P : StockKey → Type 0) (k : StockKey)
    → P k
    → ((j : StockKey) → same k j ≡ false → P j)
    → (j : StockKey) → P j
by_key P k here others j = elim (Bool-cases (same k j)) [
  | inl e ↦ subst P (same_sound k j e) here
  | inr e ↦ others j e
]

pub received-cons :
    (k : StockKey) (m : Movement) (ms : List Movement)
    → received k (m ∷ ms) ≡ inflow k m + received k ms
unfolding received
received-cons k m ms = refl

pub issued-cons :
    (k : StockKey) (m : Movement) (ms : List Movement)
    → issued k (m ∷ ms) ≡ outflow k m + issued k ms
unfolding issued
issued-cons k m ms = refl

pub reserved_sum-cons :
    (k : StockKey) (r : Reservation) (rs : List Reservation)
    → reserved_sum k (r ∷ rs) ≡ held k r + reserved_sum k rs
unfolding reserved_sum
reserved_sum-cons k r rs = refl

-- Changing the first reservation that fits changes the sum by what it held.
pub reserved_sum-update :
    (k : StockKey) (p : Reservation → Bool) (f : Reservation → Reservation) (rs : List Reservation)
    {r : Reservation}
    → find p rs ≡ some r
    → reserved_sum k (update_first p f rs) + held k r ≡ reserved_sum k rs + held k (f r)
unfolding reserved_sum
reserved_sum-update k p f [] h = cc
reserved_sum-update k p f (x ∷ rs) {r} h = ground (arith, reserved_sum-update k p f rs {r = r})

-- Tables without rows agree.
pub empty-IsBalanced :
    (db : Db)
    → ((k : StockKey) → db.stock k ≡ none)
    → db.reservations ≡ []
    → db.movements ≡ []
    → IsBalanced db
unfolding reserved_sum received issued
empty-IsBalanced db s r m k = ground (arith, s k)
