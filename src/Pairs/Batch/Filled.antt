-- ===== src/Pairs/Batch/Filled.antt =====
-- What `SavePairInfo` fills in, and that it composes the saving of the token and of the pair.
use mathlib.Core.Path.{subst}
use mathlib.Core.Option.{some-injective}
use greet.Base.{
  ◌≡◌, refl, ap, ◌⊎◌, inl, inr, String, List, [], ◌∷◌, map, All, some, and_then-eq_some, Error,
  Result, ok, err, Floats, Decimals,
}
use greet.Pairs.Types.{TradeWithPair, Token}
use greet.Pairs.Store.{PairStore}
use greet.Pairs.Save.{Saved, save_pair}
use greet.Pairs.Save.Rows.{SavedBy, save_pair-SavedBy}
use greet.Pairs.Batch.{
  Batch, last_of, error_from, with_total_supply, with_caps_of, after_token, save_pair_info,
}
use greet.Tokens.Types.{Web, TokenStore}
use greet.Tokens.Save.{SavedToken, save_token}
use greet.Tokens.Save.Rows.{TokenSaved, save_token-TokenSaved}

module _ {F : Type 0} where
  -- A trade with a total supply, a market cap and a fully diluted value.
  abbrev pub FilledIn : F → F → F → TradeWithPair F → Type 0
  FilledIn supply mcap fdv t =
      (t.pair_info.token_total_supply ≡ supply) × (t.mcap ≡ mcap) × (t.fdv ≡ fdv)

  abbrev pub hashes : List (TradeWithPair F) → List String
  hashes = map (λ t. t.tx_hash)

  filled_lem :
      (supply : F) (last : TradeWithPair F) (trades : List (TradeWithPair F))
      → All
          (FilledIn supply last.mcap last.fdv)
          (map (with_caps_of last) (map (with_total_supply supply) trades))
        × (hashes (map (with_caps_of last) (map (with_total_supply supply) trades)) ≡ hashes trades)
  filled_lem supply last [] = (tt, refl)
  filled_lem supply last (t ∷ ts) =
      let (rest, same) = filled_lem supply last ts in
      (((refl, refl, refl), rest), ap (λ hs. t.tx_hash ∷ hs) same)

module _ (f : Floats) (d : Decimals f.F) (web : Web) (tdb : TokenStore f.F) (pdb : PairStore f.F)
    (t : TradeWithPair f.F) (ts : List (TradeWithPair f.F)) (tokens : tdb.S) (pairs : pdb.S) where
  open f use {F}

  -- The token was not saved, and the pair table and the trades are left alone.
  abbrev pub NoToken : SavedToken F tdb.S → Batch f d web tdb pdb → Type 0
  NoToken x b =
      (e : Error) × (x.result ≡ err e)
      × (b.error ≡ some e)
      × (b.pairs ≡ pairs)
      × (b.trades ≡ t ∷ ts)

  -- The pair of the last trade was saved with the token, and all trades of the batch have the
  -- token's supply and the market values of the last one.
  abbrev pub PairSaved : SavedToken F tdb.S → Batch f d web tdb pdb → Type 0
  PairSaved x b =
      (token : Token F) × (y : Saved F pdb.S) × (x.result ≡ ok token)
      × SavedBy f d pdb (with_total_supply token.total_supply (last_of t ts)) (some token) pairs y
      × (b.pairs ≡ y.table)
      × (b.error ≡ error_from y.result)
      × All (FilledIn token.total_supply y.trade.mcap y.trade.fdv) b.trades
      × (hashes b.trades ≡ hashes (t ∷ ts))

  after_token-cases :
      (table : tdb.S) (result : Result (Token F))
      → let x : SavedToken F tdb.S = record { table = table; result = result } in
        let b = after_token f d web tdb pdb (t ∷ ts) (last_of t ts) pairs x in
        (b.tokens ≡ table) × (NoToken x b ⊎ PairSaved x b)
  after_token-cases table (err e) = (refl, inl (e, refl, refl, refl, refl))
  after_token-cases table (ok token) =
      let last = with_total_supply token.total_supply (last_of t ts) in
      let y = save_pair f d pdb last (some token) pairs in
      let (all, same) = filled_lem token.total_supply y.trade (t ∷ ts) in
      (
        refl,
        inr (
          token,
          y,
          refl,
          save_pair-SavedBy f d pdb last (some token) pairs,
          refl,
          refl,
          all,
          same,
        ),
      )

  -- The saving of a batch that is not empty and does not panic saves the token of its last trade;
  -- where that returns an error it is the error of the batch and the pairs and trades are left
  -- alone; else the pair of the last trade is saved with the token, with the error of that call,
  -- and every trade of the batch, in order, gets the token's supply and the market values of the
  -- last trade.
  pub save_pair_info-composes :
      (b : Batch f d web tdb pdb)
      → save_pair_info f d web tdb pdb (t ∷ ts) tokens pairs ≡ some b
      → (x : SavedToken F tdb.S) × TokenSaved f d web tdb (last_of t ts) tokens x
        × (b.tokens ≡ x.table)
        × (NoToken x b ⊎ PairSaved x b)
  unfolding save_pair_info
  save_pair_info-composes b h =
      let (x, saved, same) = and_then-eq_some (save_token f d web tdb (last_of t ts) tokens) _ h in
      let (table, cases) = after_token-cases x.table x.result in
      subst
        (λ b'.
          (x : SavedToken F tdb.S) × TokenSaved f d web tdb (last_of t ts) tokens x
          × (b'.tokens ≡ x.table)
          × (NoToken x b' ⊎ PairSaved x b'))
        (some-injective _ _ same)
        (x, save_token-TokenSaved f d web tdb (last_of t ts) tokens x saved, table, cases)
