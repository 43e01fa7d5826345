-- ===== src/Inventory/Ledger.antt =====
-- The abstract ledger of the inventory
-- (src/infrastructure/database/repositories/postgres-inventory-repository.ts): a level for each key
-- of the stock, and the events that change it.
use new_erp_final.Common.{ℕ, ◌+◌, ◌≡◌, ◌≤◌, ◌<◌, false, List, [], ◌∷◌, ◌++◌}
use new_erp_final.Database.{StockKey, Db, same}
use new_erp_final.Inventory.Balance.{stock_row}

-- What there is under one key, and how much of it is promised.
pub record Level : Type 0 where
  pub there : ℕ
  pub promised : ℕ

abbrev pub Ledger : Type 0
Ledger = StockKey → Level

-- What happens to the level of a key: stock arrives, is promised, a promise is given up, or stock
-- leaves to keep a promise.
pub data Event : Type 0 where
  arrived promised given_up left : StockKey → ℕ → Event

abbrev pub key_of : Event → StockKey
key_of (arrived k q) = k
key_of (promised k q) = k
key_of (given_up k q) = k
key_of (left k q) = k

-- The level after an event, and when the event is possible.
unfoldable pub Changes : Event → Level → Level → Type 0
Changes (arrived k q) a b = (0 < q) × (b.there ≡ a.there + q) × (b.promised ≡ a.promised)
Changes (promised k q) a b =
    (0 < q) × (b.there ≡ a.there) × (b.promised ≡ a.promised + q) × (b.promised ≤ b.there)
Changes (given_up k q) a b = (b.there ≡ a.there) × (b.promised + q ≡ a.promised)
Changes (left k q) a b = (b.there + q ≡ a.there) × (b.promised + q ≡ a.promised)

-- A run of the ledger with its events, the first event first: each changes the level of its key
-- and leaves the others.
pub data Run : Ledger → List Event → Ledger → Type 0 where
  rest : {a : Ledger} → Run a [] a
  step :
      (e : Event) {a b c : Ledger} {es : List Event}
      → Changes e (a (key_of e)) (b (key_of e))
      → ((j : StockKey) → same (key_of e) j ≡ false → b j ≡ a j)
      → Run b es c
      → Run a (e ∷ es) c

-- The levels that the rows of `inventory_stock` show.
abbrev pub levels : Db → Ledger
levels db k = record {
  there = (stock_row (db.stock k)).on_hand;
  promised = (stock_row (db.stock k)).reserved_quantity;
}

pub join_runs : {a b c : Ledger} {es fs : List Event} → Run a es b → Run b fs c → Run a (es ++ fs) c
join_runs rest s = s
join_runs (step e m others r) s = step e m others (join_runs r s)
