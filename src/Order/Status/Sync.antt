-- ===== src/Order/Status/Sync.antt =====
-- The tables agree with the order in memory after a status update: the columns that are selected
-- are all that changed.
use mathlib.Core.Path.{subst}
use mathlib.Core.Option.{some-injective}
use greet.Base.{
  ◌==◌, ◌≡◌, ◌∙◌, sym, ap, ◌⊎◌, refl, String, Bool-cases, inl, inr, str_eq, List, Option, none,
  some, Error, error_text,
}
use greet.Order.Types.{TradeOrder, CreateMarketTx, status_fail, status_on_chain, server_err}
use greet.Order.Store.{
  Store, Column, copy_columns, update_order_by_select, update_order_by_select-row,
}
use greet.Order.Status.{
  Updated, update_db_by_tx_result, failed_order, failed_columns, sent_order, sent_columns, write,
  written,
}

module _ {F D : Type 0} where
  failed_columns_cover :
      (o : TradeOrder F D) (param : Option CreateMarketTx) (reason : Error)
      → copy_columns (failed_columns o param) (failed_order o param reason) o
        ≡ failed_order o param reason
  failed_columns_cover o none reason = refl
  failed_columns_cover o (some p) reason = elim (Bool-cases (o.slippage == p.slippage)) [
    | inl same ↦ rw same
    | inr differs ↦ rw differs
  ]

  sent_columns_cover :
      (o : TradeOrder F D) (p : CreateMarketTx) (hash : String)
      → copy_columns (sent_columns o p) (sent_order o p hash) o ≡ sent_order o p hash
  sent_columns_cover o p hash = elim (Bool-cases (str_eq o.dex_name p.trade_pool_name)) [
    | inl same_dex ↦ elim (Bool-cases (str_eq o.pair_ca p.pair_addr)) [
      | inl same_pair ↦ elim (Bool-cases (o.slippage == p.slippage)) [
        | inl same ↦ rw (same_dex, same_pair, same)
        | inr differs ↦ rw (same_dex, same_pair, differs)
      ]
      | inr other_pair ↦ elim (Bool-cases (o.slippage == p.slippage)) [
        | inl same ↦ rw (same_dex, other_pair, same)
        | inr differs ↦ rw (same_dex, other_pair, differs)
      ]
    ]
    | inr other_dex ↦ elim (Bool-cases (str_eq o.pair_ca p.pair_addr)) [
      | inl same_pair ↦ elim (Bool-cases (o.slippage == p.slippage)) [
        | inl same ↦ rw (other_dex, same_pair, same)
        | inr differs ↦ rw (other_dex, same_pair, differs)
      ]
      | inr other_pair ↦ elim (Bool-cases (o.slippage == p.slippage)) [
        | inl same ↦ rw (other_dex, other_pair, same)
        | inr differs ↦ rw (other_dex, other_pair, differs)
      ]
    ]
  ]

module _ {F D : Type 0} (db : Store F D) where
  open db use {S, row, logged}

  -- In agreement: the order's row is the order in memory, and so is its log entry for its status.
  abbrev pub InSync : TradeOrder F D → S → Type 0
  InSync o s = (row o.id s ≡ some o) × (logged o.id o.status s ≡ some o)

  -- The table refused the change of the old order to the new one, in columns that make it up.
  abbrev pub Refused : TradeOrder F D → TradeOrder F D → S → Type 0
  Refused old o s =
      (cs : List Column) × (copy_columns cs o old ≡ o) × (update_order_by_select db o cs s ≡ none)

  -- How an update ends: the tables agree with the order, or they refused it and are as they were
  -- and the update reports `ServerErr`.
  abbrev pub WellUpdated : TradeOrder F D → S → Updated F D S → Type 0
  WellUpdated old s u =
      ((u.failed ≡ none) × InSync u.order u.tables)
      ⊎ ((u.failed ≡ some server_err) × (u.tables ≡ s) × Refused old u.order s)

  written-WellUpdated :
      (o old : TradeOrder F D) (s : S) (answer : Option S)
      → ((s' : S) → answer ≡ some s' → InSync o s')
      → (answer ≡ none → Refused old o s)
      → WellUpdated old s (written db o s answer)
  written-WellUpdated o old s none sync refused = inr (refl, refl, refused refl)
  written-WellUpdated o old s (some s') sync refused = inl (refl, sync s' refl)

  write-WellUpdated :
      (o old : TradeOrder F D) (cs : List Column) (s : S)
      → row o.id s ≡ some old
      → copy_columns cs o old ≡ o
      → WellUpdated old s (write db o cs s)
  write-WellUpdated o old cs s r cover =
      written-WellUpdated o old s (update_order_by_select db o cs s)
        (λ s' e.
          let (in_row, in_log) = update_order_by_select-row db o old cs s e r in
          (in_row ∙ ap some cover, in_log))
        (λ e. (cs, cover, e))

  -- What an update records: the failed status with the error's text as the reason, or the on-chain
  -- status with the hash.
  abbrev pub Records : Option Error → String → TradeOrder F D → Type 0
  Records (some e) hash o = (o.status ≡ status_fail) × (o.fail_reason ≡ error_text e)
  Records none hash o = (o.status ≡ status_on_chain) × (o.tx_hash ≡ hash)

  abbrev pub GoodUpdate : TradeOrder F D → Option Error → String → S → Updated F D S → Type 0
  GoodUpdate o reason hash s u =
      WellUpdated o s u × (u.order.id ≡ o.id) × Records reason hash u.order

  written_order :
      (o : TradeOrder F D) (s : S) (answer : Option S) → (written db o s answer).order ≡ o
  written_order o s none = refl
  written_order o s (some s') = refl

  write-GoodUpdate :
      (o o' : TradeOrder F D) (cs : List Column) (reason : Option Error) (hash : String) (s : S)
      → row o.id s ≡ some o
      → o'.id ≡ o.id
      → copy_columns cs o' o ≡ o'
      → Records reason hash o'
      → GoodUpdate o reason hash s (write db o' cs s)
  write-GoodUpdate o o' cs reason hash s r same cover records =
      let as_given = written_order o' s (update_order_by_select db o' cs s) in
      (
        write-WellUpdated o' o cs s (ap (λ i. row i s) same ∙ r) cover,
        ap (λ (x : TradeOrder F D). x.id) as_given ∙ same,
        subst (Records reason hash) (sym as_given) records,
      )

  -- From an order that its row agrees with, every status update, of a success or of a failure and
  -- with or without parameters, ends with row and log in agreement with the order in memory, or
  -- the table refused an update of the columns that changed, and the tables are as before and the
  -- error is `ServerErr`. The id stays, and the order has the failed
  -- status with the error's text as the reason, or the on-chain status with the hash.
  pub update_db_by_tx_result-GoodUpdate :
      (o : TradeOrder F D) (param : Option CreateMarketTx) (hash : String) (reason : Option Error)
      (s : S) {u : Updated F D S}
      → row o.id s ≡ some o
      → update_db_by_tx_result db o param hash reason s ≡ some u
      → GoodUpdate o reason hash s u
  unfolding update_db_by_tx_result
  update_db_by_tx_result-GoodUpdate o none hash (some e) s r h =
      subst (GoodUpdate o (some e) hash s) (some-injective _ _ h) (
        write-GoodUpdate o (failed_order o none e) (failed_columns o none) (some e) hash s r refl
          (failed_columns_cover o none e) (refl, refl))
  update_db_by_tx_result-GoodUpdate o (some p) hash (some e) s r h =
      subst (GoodUpdate o (some e) hash s) (some-injective _ _ h) (
        write-GoodUpdate o (failed_order o (some p) e) (failed_columns o (some p)) (some e) hash s r
          refl (failed_columns_cover o (some p) e) (refl, refl))
  update_db_by_tx_result-GoodUpdate o none hash none s r h = cc
  update_db_by_tx_result-GoodUpdate o (some p) hash none s r h =
      subst (GoodUpdate o none hash s) (some-injective _ _ h) (
        write-GoodUpdate o (sent_order o p hash) (sent_columns o p) none hash s r refl
          (sent_columns_cover o p hash) (refl, refl))
