-- ===== src/Tokens/Types.antt =====
-- The data of block/token.go with the fields that are read, and what it calls of the node, the web
-- and the token table. Keys are their texts in base 58.
use greet.Base.{ℕ, String, Bool, ◌≡◌, Option, none, some, List, Error, Result, ok}
use greet.Pairs.Types.{Token}

-- The document behind a token's address of metadata, `extensions` flattened.
pub record TokenUriData : Type 0 where
  pub twitter : String
  pub website : String
  pub telegram : String
  pub name : String
  pub image : String
  pub symbol : String
  pub description : String
  pub extension_website : String
  pub extension_twitter : String
  pub extension_telegram : String

abbrev pub no_uri_data : TokenUriData
no_uri_data = record {
  twitter = "";
  website = "";
  telegram = "";
  name = "";
  image = "";
  symbol = "";
  description = "";
  extension_website = "";
  extension_twitter = "";
  extension_telegram = "";
}

-- token_metadata.Data
pub record MetaData : Type 0 where
  pub name : String
  pub symbol : String
  pub uri : String

pub record TokenInfo : Type 0 where
  pub name : String
  pub symbol : String
  pub uri : TokenUriData

-- An extension of a mint of Token-2022, with the state that is read.
pub record Extension : Type 0 where
  pub extension : String
  pub name : String
  pub symbol : String
  pub uri : String

pub record Account : Type 0 where
  pub owner : String
  pub bytes : List ℕ

-- The answer to a GET of a document: its request cannot be made, the request fails, the body cannot
-- be read, or a content type and a body.
pub data Answer : Type 0 where
  bad_request : Error → Answer
  no_response : Answer
  unreadable : Answer
  page : String → String → Answer

-- The node, the web and the decoders, which are not part of the repository.
pub record Web : Type 0 where
  -- `GetTokenSupplyWithConfig`: amount and decimals
  pub token_supply : String → Result (ℕ × ℕ)
  pub account : String → Result Account
  -- the error of `MintAccountFromData`, whose value is not read
  pub mint_error : List ℕ → Option Error
  pub metadata_key : String → Result String
  pub metadata : List ℕ → Result MetaData
  -- the account as JSON, and its decoder; `none` is `null`
  pub parsed_account : String → Result String
  pub mint_response : String → Result (Option (List Extension))
  pub is_key : String → Bool
  -- `%#v` of a key and of a text
  pub key_literal : String → String
  pub text_literal : String → String
  pub status : String → Result ℕ
  pub fetch : String → Answer
  pub uri_data : String → Result TokenUriData

-- What `FindOneByChainIdAddress` answers: a row, `ErrNotFound`, or another error.
pub data FoundToken (F : Type 0) : Type 0 where
  found : Token F → FoundToken F
  missing : FoundToken F
  failed : Error → FoundToken F

-- The token table over gorm, with a unique key of chain and address. After an error it is as
-- before. A row that another writer has just inserted may be missing from a search.
pub record TokenStore (F : Type 0) : Type 1 where
  pub S : Type 0
  pub row : ℕ → String → S → Option (Token F)
  pub find : ℕ → String → S → FoundToken F
  -- … after an insertion that was refused, when another writer may have inserted the row
  pub find_again : ℕ → String → S → FoundToken F
  -- `Insert`, with the id that the row is given
  pub insert : Token F → S → Result (ℕ × S)
  pub update : Token F → S → Result S
  pub find_row :
      (c : ℕ) (a : String) (s : S) {t : Token F}
      → find c a s ≡ FoundToken.found t
      → (row c a s ≡ some t) × (t.chain_id ≡ c) × (t.address ≡ a)
  pub find_again_key :
      (c : ℕ) (a : String) (s : S) {t : Token F}
      → find_again c a s ≡ FoundToken.found t
      → (t.chain_id ≡ c) × (t.address ≡ a)
  pub insert_row :
      (t : Token F) (s : S) {i : ℕ} {s' : S}
      → insert t s ≡ ok (i, s')
      → (row t.chain_id t.address s ≡ none)
        × (row t.chain_id t.address s' ≡ some (record t { id = i }))
  pub update_row :
      (t old : Token F) (s : S) {s' : S}
      → update t s ≡ ok s'
      → row t.chain_id t.address s ≡ some old
      → old.id ≡ t.id
      → row t.chain_id t.address s' ≡ some t
