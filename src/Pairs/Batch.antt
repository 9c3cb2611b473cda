-- ===== src/Pairs/Batch.antt =====
-- block/db.go: `SavePairInfo`, `BatchSaveByTrade` and the routines of `SaveTrades`. `none` is a
-- panic, which comes before any write and which the routine of the batch recovers from.
pub mod Slots
pub mod Filled
use greet.Base.{
  List, [], ◌∷◌, map, Option, none, some, and_then, Error, Result, ok, err, Floats, Decimals,
}
use greet.Pairs.Types.{TradeWithPair, Token}
use greet.Pairs.Store.{PairStore}
use greet.Pairs.Save.{Saved, save_pair}
use greet.Tokens.Types.{Web, TokenStore}
use greet.Tokens.Save.{SavedToken, save_token}

abbrev pub last_of {ℓ} : {A : Type ℓ} → A → List A → A
last_of x [] = x
last_of _ (y ∷ ys) = last_of y ys

abbrev pub error_from {ℓ} : {A : Type ℓ} → Result A → Option Error
error_from (ok a) = none
error_from (err e) = some e

module _ {F : Type 0} where
  abbrev pub with_total_supply : F → TradeWithPair F → TradeWithPair F
  with_total_supply supply t = record t {
    pair_info = record t.pair_info { token_total_supply = supply };
  }

  abbrev pub with_caps_of : TradeWithPair F → TradeWithPair F → TradeWithPair F
  with_caps_of last t = record t { mcap = last.mcap; fdv = last.fdv }

module _ (f : Floats) (d : Decimals f.F) (web : Web) (tdb : TokenStore f.F)
    (pdb : PairStore f.F) where
  open f use {F}

  -- The two tables, the trades of the batch, which the callee fills in, and the error.
  pub record Batch : Type 0 where
    pub tokens : tdb.S
    pub pairs : pdb.S
    pub trades : List (TradeWithPair F)
    pub error : Option Error

  -- After the call of `SavePair` for the last trade.
  abbrev pub after_pair : List (TradeWithPair F) → tdb.S → Saved F pdb.S → Batch
  after_pair trades tokens y = record {
    tokens = tokens;
    pairs = y.table;
    trades = map (with_caps_of y.trade) trades;
    error = error_from y.result;
  }

  -- After the call of `SaveToken`.
  abbrev pub after_token :
      List (TradeWithPair F) → TradeWithPair F → pdb.S → SavedToken F tdb.S → Batch
  after_token trades last pairs x = elim x.result [
    | err e ↦ record { tokens = x.table; pairs = pairs; trades = trades; error = some e }
    | ok token ↦
        after_pair (map (with_total_supply token.total_supply) trades) x.table
          (save_pair f d pdb (with_total_supply token.total_supply last) (some token) pairs)
  ]

  -- `SavePairInfo`, whose error `BatchSaveByTrade` logs and returns.
  unfoldable pub save_pair_info : List (TradeWithPair F) → tdb.S → pdb.S → Option Batch
  save_pair_info [] tokens pairs =
      some (record { tokens = tokens; pairs = pairs; trades = []; error = none })
  save_pair_info (t ∷ ts) tokens pairs =
      and_then (save_token f d web tdb (last_of t ts) tokens)
        (λ x. some (after_token (t ∷ ts) (last_of t ts) pairs x))

  -- The tables after a batch: a routine recovers from a panic.
  abbrev pub tables_after : tdb.S × pdb.S → Option Batch → tdb.S × pdb.S
  tables_after s none = s
  tables_after s (some b) = (b.tokens, b.pairs)

  -- The batches of `SaveTrades`, in the order in which their routines run.
  unfoldable pub save_batches : List (List (TradeWithPair F)) → tdb.S × pdb.S → tdb.S × pdb.S
  unfolding save_pair_info
  save_batches [] s = s
  save_batches (b ∷ bs) s = save_batches bs (tables_after s (save_pair_info b s.0 s.1))
