-- ===== src/Pairs/Batch/Slots.antt =====
-- The slots of the pair table while batches of trades are saved.
use greet.Base.{
  ◌≤◌, ◌≡◌, String, List, [], ◌∷◌, none, some, and_then, Result, ok, err, Floats, Decimals, arith,
}
use greet.Order.Types.{sol_chain_id}
use greet.Pairs.Types.{TradeWithPair, PairRow, Token}
use greet.Pairs.Store.{PairStore}
use greet.Pairs.Save.Slots.{KeepsSlot, save_pair-KeepsSlot}
use greet.Pairs.Batch.{
  last_of, with_total_supply, after_token, save_pair_info, tables_after, save_batches,
}
use greet.Tokens.Types.{Web, TokenStore}
use greet.Tokens.Save.{save_token}

module _ (f : Floats) (d : Decimals f.F) (web : Web) (tdb : TokenStore f.F)
    (pdb : PairStore f.F) where
  open f use {F}

  KeepsSlot-refl : (a : String) (s : pdb.S) → KeepsSlot f d pdb a s s
  KeepsSlot-refl a s r h = (r, h, omega arith)

  after_token-KeepsSlot :
      (trades : List (TradeWithPair F)) (last : TradeWithPair F) (a : String) (pairs : pdb.S)
      (tokens : tdb.S) (result : Result (Token F))
      → KeepsSlot f d pdb a pairs
          (after_token f d web tdb pdb trades last pairs
            (record { table = tokens; result = result })).pairs
  after_token-KeepsSlot trades last a pairs tokens (err e) = KeepsSlot-refl a pairs
  after_token-KeepsSlot trades last a pairs tokens (ok token) =
      save_pair-KeepsSlot f d pdb (with_total_supply token.total_supply last) (some token) a pairs

  tables_after-KeepsSlot :
      (batch : List (TradeWithPair F)) (a : String) (s : tdb.S × pdb.S)
      → KeepsSlot f d pdb a s.1
          (tables_after f d web tdb pdb s (save_pair_info f d web tdb pdb batch s.0 s.1)).1
  unfolding save_pair_info
  tables_after-KeepsSlot [] a s = KeepsSlot-refl a s.1
  tables_after-KeepsSlot (t ∷ ts) a s =
      elim (save_token f d web tdb (last_of t ts) s.0)
        as (λ o.
          KeepsSlot f d pdb a s.1
            (tables_after f d web tdb pdb s (
              and_then o
                (λ x. some (after_token f d web tdb pdb (t ∷ ts) (last_of t ts) s.1 x)))).1) [
                  | none ↦ KeepsSlot-refl a s.1
                  | some x ↦ after_token-KeepsSlot (t ∷ ts) (last_of t ts) a s.1 x.table x.result
                ]

  -- While batches of trades are saved one after the other, in any order and with any tokens,
  -- answers of the node and panics, no row of the pair table is lost and no row's slot decreases.
  pub save_batches-KeepsSlot :
      (batches : List (List (TradeWithPair F))) (a : String) (s : tdb.S × pdb.S) (r : PairRow F)
      → pdb.row sol_chain_id a s.1 ≡ some r
      → (r' : PairRow F) × (pdb.row sol_chain_id a (save_batches f d web tdb pdb batches s).1
          ≡ some r')
        × (r.slot ≤ r'.slot)
  unfolding save_batches
  save_batches-KeepsSlot [] a s r h = (r, h, omega arith)
  save_batches-KeepsSlot (b ∷ bs) a s r h =
      let (r1, h1, le1) = tables_after-KeepsSlot b a s r h in
      let (r2, h2, le2) =
        save_batches-KeepsSlot bs a
          (tables_after f d web tdb pdb s (save_pair_info f d web tdb pdb b s.0 s.1)) r1 h1 in
      (r2, h2, omega (arith, le1, le2))
