-- ===== src/Order/Status.antt =====
-- createmarketorderlogic.go: `updateDbByTxResult`, which sets the order's status after an attempt,
-- in memory and then in the tables.
pub mod Sync
use greet.Base.{
  ℕ, ◌==◌, String, if◌then◌else◌, str_eq, List, [], ◌∷◌, ◌++◌, Option, none, some, Error,
  error_text,
}
use greet.Order.Types.{TradeOrder, CreateMarketTx, status_fail, status_on_chain, server_err}
use greet.Order.Store
use greet.Order.Store.{Store, Column, update_order_by_select}

-- The order in memory, the tables, and the error that is returned.
pub record Updated (F D S : Type 0) : Type 0 where
  pub order : TradeOrder F D
  pub tables : S
  pub failed : Option Error

module _ {F D : Type 0} where
  -- `if order.Slippage != int64(param.Slippage) { … }`
  abbrev pub set_slippage : CreateMarketTx → TradeOrder F D → TradeOrder F D
  set_slippage p o = record o {
    slippage = if o.slippage == p.slippage then o.slippage else p.slippage;
  }

  abbrev pub slippage_column : CreateMarketTx → TradeOrder F D → List Column
  slippage_column p o = if o.slippage == p.slippage then [] else Column.slippage ∷ []

  -- The failure, which may come with no parameters (`param == nil`).
  abbrev pub failed_order : TradeOrder F D → Option CreateMarketTx → Error → TradeOrder F D
  failed_order o none reason = record o { status = status_fail; fail_reason = error_text reason }
  failed_order o (some p) reason = record (set_slippage p o) {
    status = status_fail;
    fail_reason = error_text reason;
  }

  abbrev pub failed_columns : TradeOrder F D → Option CreateMarketTx → List Column
  failed_columns o none = Column.status ∷ Column.fail_reason ∷ []
  failed_columns o (some p) = Column.status ∷ Column.fail_reason ∷ slippage_column p o

  -- The success.
  abbrev pub sent_order : TradeOrder F D → CreateMarketTx → String → TradeOrder F D
  sent_order o p hash = record (set_slippage p o) {
    status = status_on_chain;
    tx_hash = hash;
    dex_name = if str_eq o.dex_name p.trade_pool_name then o.dex_name else p.trade_pool_name;
    pair_ca = if str_eq o.pair_ca p.pair_addr then o.pair_ca else p.pair_addr;
  }

  abbrev pub sent_columns : TradeOrder F D → CreateMarketTx → List Column
  sent_columns o p =
      Column.status
      ∷ Column.tx_hash
      ∷ ((if str_eq o.dex_name p.trade_pool_name then [] else Column.dex_name ∷ [])
          ++ ((if str_eq o.pair_ca p.pair_addr then [] else Column.pair_ca ∷ [])
              ++ slippage_column p o))

module _ {F D : Type 0} (db : Store F D) where
  open db use {S}

  -- What the answer of the tables makes of an update: any error is reported as `ServerErr`.
  abbrev pub written : TradeOrder F D → S → Option S → Updated F D S
  written o s none = record { order = o; tables = s; failed = some server_err }
  written o s (some s') = record { order = o; tables = s'; failed = none }

  abbrev pub write : TradeOrder F D → List Column → S → Updated F D S
  write o cs s = written o s (update_order_by_select db o cs s)

  -- `none` is the panic of a success with no parameters, which reads through a nil pointer.
  unfoldable pub update_db_by_tx_result :
      TradeOrder F D → Option CreateMarketTx → String → Option Error → S → Option (Updated F D S)
  update_db_by_tx_result o param hash (some reason) s =
      some (write (failed_order o param reason) (failed_columns o param) s)
  update_db_by_tx_result o none hash none s = none
  update_db_by_tx_result o (some p) hash none s =
      some (write (sent_order o p hash) (sent_columns o p) s)
