-- ===== src/Inventory/Service/Checks.antt =====
-- The private checks of src/application/services/inventory-service.ts. A quantity arrives as a
-- number of the language: not finite, negative, or a count of 0.0001.
use new_erp_final.Common.{ℕ, zero, suc, not, ◌&&◌, Option, none, some, leb}
use new_erp_final.Transaction.{
  Tx, validation, ◌>>=◌, ◌>>◌, pure, require, or_throw, not_a_uuid, bad_quantity, bad_source_type,
  bad_key,
}
use new_erp_final.Environment.{Env}
use new_erp_final.Database.{Db}
use new_erp_final.Inventory.Queries.{Request}

-- `negative n` is -(n + 1) units of 0.0001.
pub data Number : Type 0 where
  not_finite : Number
  negative : ℕ → Number
  ticks : ℕ → Number

-- `Number.isFinite(quantity) && quantity > 0`
abbrev pub positive : Number → Option ℕ
positive not_finite = none
positive (negative n) = none
positive (ticks zero) = none
positive (ticks (suc n)) = some (suc n)

pub record Input : Type 0 where
  pub warehouse : ℕ
  pub item : ℕ
  pub quantity : Number
  pub source_type : ℕ
  pub source : ℕ
  pub key : ℕ

module _ (env : Env) where
  unfoldable pub check_id : ℕ → Tx Db (Unit {0})
  check_id id = require (env.is_uuid id) (validation not_a_uuid)

  unfoldable pub check_key : ℕ → Tx Db (Unit {0})
  check_key key =
      require (not (env.is_blank key) && leb (env.text_length key) 128) (validation bad_key)

  unfoldable pub validate_reservation : Input → Tx Db Request
  unfolding check_id check_key
  validate_reservation i = do
    check_id i.warehouse
    check_id i.item
    check_id i.source
    quantity ← or_throw (positive i.quantity) (validation bad_quantity)
    require (not (env.is_blank i.source_type) && leb (env.text_length i.source_type) 80)
        (validation bad_source_type)
    check_key i.key
    pure (record {
      warehouse = i.warehouse;
      item = i.item;
      quantity = quantity;
      source_type = i.source_type;
      source = i.source;
      key = i.key;
    })
