-- ===== src/Order/Store.antt =====
-- The order tables: model/trademodel/tradeordermodel.go and tradeorderlogmodel.go over gorm, which
-- is not part of the repository. Its calls are the operations of an interface with the behaviour
-- that its documentation gives; `none` is an error, after which the tables are as before.
use greet.Base.{
  ℕ, ◌≡◌, ◌⊎◌, List, [], ◌∷◌, Option, none, some, and_then, and_then-eq_some, inl, inr,
}
use greet.Order.Types.{TradeOrder}

-- The columns that a status update can select.
pub data Column : Type 0 where
  status fail_reason slippage tx_hash dex_name pair_ca : Column

module _ {F D : Type 0} where
  abbrev pub copy_column : Column → TradeOrder F D → TradeOrder F D → TradeOrder F D
  copy_column Column.status o row = record row { status = o.status }
  copy_column Column.fail_reason o row = record row { fail_reason = o.fail_reason }
  copy_column Column.slippage o row = record row { slippage = o.slippage }
  copy_column Column.tx_hash o row = record row { tx_hash = o.tx_hash }
  copy_column Column.dex_name o row = record row { dex_name = o.dex_name }
  copy_column Column.pair_ca o row = record row { pair_ca = o.pair_ca }

  -- The row after an update of the selected columns.
  abbrev pub copy_columns : List Column → TradeOrder F D → TradeOrder F D → TradeOrder F D
  copy_columns [] o row = row
  copy_columns (c ∷ cs) o row = copy_columns cs o (copy_column c o row)

pub record Store (F D : Type 0) : Type 1 where
  pub S : Type 0
  -- the order of an id, and the log entry of an id and a status
  pub row : ℕ → S → Option (TradeOrder F D)
  pub logged : ℕ → ℕ → S → Option (TradeOrder F D)
  -- `Save(&order)` of a new order, with the id that it is given
  pub save : TradeOrder F D → S → Option (ℕ × S)
  -- `Model(&order).Select(columns).Updates(&order)`
  pub update_select : List Column → TradeOrder F D → S → Option S
  -- the `INSERT … ON DUPLICATE KEY UPDATE` of the log
  pub upsert_log : TradeOrder F D → S → Option S
  -- `Transaction(f)`: commits what `f` did, or rolls back
  pub transaction : (S → Option (ℕ × S)) → S → Option (ℕ × S)
  pub save_row :
      (o : TradeOrder F D) (s : S) {i : ℕ} {s' : S}
      → save o s ≡ some (i, s')
      → row i s' ≡ some (record o { id = i })
  pub update_row :
      (cs : List Column) (o old : TradeOrder F D) (s : S) {s' : S}
      → update_select cs o s ≡ some s'
      → row o.id s ≡ some old
      → row o.id s' ≡ some (copy_columns cs o old)
  pub log_row :
      (o : TradeOrder F D) (s : S) {s' : S} (i : ℕ) → upsert_log o s ≡ some s' → row i s' ≡ row i s
  pub log_logged :
      (o : TradeOrder F D) (s : S) {s' : S}
      → upsert_log o s ≡ some s'
      → logged o.id o.status s' ≡ some o
  pub transaction_atomic :
      (f : S → Option (ℕ × S)) (s : S) → (transaction f s ≡ none) ⊎ (transaction f s ≡ f s)

module _ {F D : Type 0} (db : Store F D) where
  open db use {S, row, logged, save, update_select, upsert_log, transaction}

  -- `Save` sets the id of the order in memory, which the log entry and the caller then see.
  abbrev insert_body : TradeOrder F D → S → Option (ℕ × S)
  insert_body o s =
      and_then (save o s)
        λ r. and_then (upsert_log (record o { id = r.0 }) r.1) (λ s'. some (r.0, s'))

  unfoldable pub insert_with_log : TradeOrder F D → S → Option (TradeOrder F D × S)
  insert_with_log o s =
      and_then (transaction (insert_body o) s) (λ r. some (record o { id = r.0 }, r.1))

  abbrev update_body : TradeOrder F D → List Column → S → Option (ℕ × S)
  update_body o cs s =
      and_then (update_select cs o s) (λ s1. and_then (upsert_log o s1) (λ s2. some (o.id, s2)))

  unfoldable pub update_order_by_select : TradeOrder F D → List Column → S → Option S
  update_order_by_select o cs s = and_then (transaction (update_body o cs) s) (λ r. some r.1)

  -- A transaction that returns no error has done all of its body.
  committed : (f : S → Option (ℕ × S)) (s : S) {r : ℕ × S} → transaction f s ≡ some r → f s ≡ some r
  committed f s h = elim (db.transaction_atomic f s) [ inl rolled_back ↦ cc | inr done ↦ cc ]

  -- An insertion that returns no error leaves the order's row and its log entry, under its new id.
  pub insert_with_log-row :
      (o : TradeOrder F D) (s : S) {o' : TradeOrder F D} {s' : S}
      → insert_with_log o s ≡ some (o', s')
      → (i : ℕ) × (o' ≡ record o { id = i })
        × (row i s' ≡ some o')
        × (logged i o.status s' ≡ some o')
  unfolding insert_with_log
  insert_with_log-row o s h =
      let ((i, s2), t, e) = and_then-eq_some (transaction (insert_body o) s) _ h in
      let ((j, s1), sv, e1) = and_then-eq_some (save o s) _ (committed (insert_body o) s t) in
      let (s3, lg, e2) = and_then-eq_some (upsert_log (record o { id = j }) s1) _ e1 in
      (
        j,
        cc,
        cc (db.log_row (record o { id = j }) s1 j lg, db.save_row o s sv),
        cc (db.log_logged (record o { id = j }) s1 lg),
      )

  -- An update that returns no error leaves the row with the selected columns of the order, and the
  -- order itself in the log under its status.
  pub update_order_by_select-row :
      (o old : TradeOrder F D) (cs : List Column) (s : S) {s' : S}
      → update_order_by_select o cs s ≡ some s'
      → row o.id s ≡ some old
      → (row o.id s' ≡ some (copy_columns cs o old)) × (logged o.id o.status s' ≡ some o)
  unfolding update_order_by_select
  update_order_by_select-row o old cs s h r =
      let ((i, s3), t, e) = and_then-eq_some (transaction (update_body o cs) s) _ h in
      let (s1, up, e1) =
        and_then-eq_some (update_select cs o s) _ (committed (update_body o cs) s t) in
      let (s2, lg, e2) = and_then-eq_some (upsert_log o s1) _ e1 in
      (cc (db.log_row o s1 o.id lg, db.update_row cs o old s up r), cc (db.log_logged o s1 lg))
