-- ===== src/Example.antt =====
-- The concrete data that the tests of the components share: one tenant with one warehouse and one
-- item, a caller, and requests for stock. It models no code.
use new_erp_final.Common.{ℕ, ◌+◌, ◌*◌, Bool, true, false, none, some, List, [], ◌∷◌}
use new_erp_final.Transaction.{Tx, ok, err}
use new_erp_final.Environment.{Env, Texts}
use new_erp_final.Database.{Db, Context, Order, Quotation, OrderStatus}
use new_erp_final.Inventory.Queries.{Request}
use new_erp_final.Authorization.{Authorization}

abbrev pub env : Env
env = record {
  is_uuid = λ x. true;
  gen_uuid = λ n. 1000 + n;
  join = λ a b. a * 100 + b;
  is_blank = λ x. false;
  text_length = λ x. 5;
  trim = λ x. x;
  trim_upper = λ x. x;
}

abbrev pub caller : Context
caller = record { tenant = 1; branch = 2; year = 3; user = 4 }

abbrev pub request : ℕ → ℕ → Request
request quantity key = record {
  warehouse = 10;
  item = 20;
  quantity = quantity;
  source_type = 7;
  source = 8;
  key = key;
}

abbrev pub start : Db
start = record {
  warehouses = record { id = 10; tenant = 1; code = 5; name = 6; active = true; version = 1 } ∷ [];
  items =
      record { id = 20; tenant = 1; active = true; sales_eligible = true; is_deleted = false } ∷ [];
  stock = λ k. none;
  reservations = [];
  movements = [];
  quotations = [];
  orders = [];
  order_counter = λ t b. 0;
  audit = [];
  generated = 0;
}

abbrev pub state_after : {A : Type 0} → Tx Db A → Db → Db
state_after m s = elim (m s) [ ok (a, s') ↦ s' | err e ↦ s ]

abbrev pub texts : Texts
texts = record { sales_order = 7; reserve_prefix = 1; cancel_prefix = 2 }

-- Everybody may do everything.
abbrev pub permissive : Authorization
permissive = record {
  has_permission = λ t u p. true;
  has_branch_access = none;
  has_year_access = none;
  is_module_enabled = λ t m. true;
}

abbrev pub order : ℕ → ℕ → Bool → OrderStatus → Order
order id branch is_reserved status = record {
  id = id;
  tenant = 1;
  branch = branch;
  year = 3;
  number = 1;
  quotation = 300;
  warehouse = some 10;
  is_reserved = is_reserved;
  status = status;
  notes = 0;
  items = record { item = some 20; quantity = 20000 } ∷ [];
  is_deleted = false;
  version = 1;
}

abbrev pub quotation : Quotation
quotation = record {
  id = 300;
  tenant = 1;
  branch = 2;
  year = 3;
  accepted = true;
  is_deleted = false;
  items = record { item = some 20; quantity = 20000 } ∷ [];
}

abbrev pub env_with : List Order → Db → Db
env_with orders db = record db { quotations = quotation ∷ []; orders = orders }
