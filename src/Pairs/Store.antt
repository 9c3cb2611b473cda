-- ===== src/Pairs/Store.antt =====
-- The pair table over gorm, which is not part of the repository, as an interface: the calls of
-- model/solmodel/pairmodel_gen.go that the consumer makes, with their documented behaviour. The
-- table has a unique key of chain and address. After an error it is as before. A row that another
-- writer has just inserted may be missing from a search.
use greet.Base.{ℕ, String, ◌≡◌, ◌≢◌, Option, none, some, Error, Result, ok}
use greet.Pairs.Types.{PairRow}

-- What `FindOneByChainIdAddress` answers: a row, `ErrNotFound`, or another error.
pub data Found (F : Type 0) : Type 0 where
  found : PairRow F → Found F
  missing : Found F
  failed : Error → Found F

pub record PairStore (F : Type 0) : Type 1 where
  pub S : Type 0
  pub row : ℕ → String → S → Option (PairRow F)
  pub find : ℕ → String → S → Found F
  -- the search after an insertion found its key taken, by when the row of the other writer shows
  pub find_again : ℕ → String → S → Found F
  -- `Insert`, with the id that the row is given
  pub insert : PairRow F → S → Result (ℕ × S)
  pub update : PairRow F → S → Result S
  pub find_row :
      (c : ℕ) (a : String) (s : S) {r : PairRow F}
      → find c a s ≡ Found.found r
      → (row c a s ≡ some r) × (r.chain_id ≡ c) × (r.address ≡ a)
  pub find_again_row :
      (c : ℕ) (a : String) (s : S) {r : PairRow F}
      → find_again c a s ≡ Found.found r
      → (row c a s ≡ some r) × (r.chain_id ≡ c) × (r.address ≡ a)
  pub insert_row :
      (r : PairRow F) (s : S) {i : ℕ} {s' : S}
      → insert r s ≡ ok (i, s')
      → (row r.chain_id r.address s ≡ none)
        × (row r.chain_id r.address s' ≡ some (record r { id = i }))
  pub insert_other :
      (r : PairRow F) (s : S) {i : ℕ} {s' : S} (c : ℕ) (a : String)
      → insert r s ≡ ok (i, s')
      → r.address ≢ a
      → row c a s' ≡ row c a s
  pub update_row :
      (r old : PairRow F) (s : S) {s' : S}
      → update r s ≡ ok s'
      → row r.chain_id r.address s ≡ some old
      → old.id ≡ r.id
      → row r.chain_id r.address s' ≡ some r
  pub update_other :
      (r old : PairRow F) (s : S) {s' : S} (c : ℕ) (a : String)
      → update r s ≡ ok s'
      → row r.chain_id r.address s ≡ some old
      → old.id ≡ r.id
      → r.address ≢ a
      → row c a s' ≡ row c a s
