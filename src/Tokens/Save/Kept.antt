-- ===== src/Tokens/Save/Kept.antt =====
-- What a call of `SaveToken` keeps of a token, and what it leaves in the table.
use mathlib.Core.Path.{subst}
use mathlib.Core.Option.{some-injective}
use greet.Base.{
  ℕ, ◌==◌, ◌≡◌, refl, ap, ◌∙◌, String, str_eq, Bool, true, false, ◌||◌, if◌then◌else◌, Option, none,
  some, Result, ok, err, Floats, Decimals, arith,
}
use greet.Transfers.Types.{program_token, program_token2022}
use greet.Pairs.Types.{TradeWithPair, Token}
use greet.Tokens.Types.{TokenInfo, Web}
use greet.Tokens.Uri.{Got}
use greet.Tokens.Info.{
  get_token_program, get_token_total_supply, get_token_info, get_token2022_info,
}
use greet.Tokens.Save.{
  Changed, with_texts, with_token_info, with_slot, take_supply, with_supply, take_program,
  with_program, take_info, with_names, refreshed,
}

module _ (f : Floats) where
  open f use {F}

  abbrev pub SameTexts : Token F → Token F → Type 0
  SameTexts t t' =
      (t'.name ≡ t.name)
      × (t'.symbol ≡ t.symbol)
      × (t'.icon ≡ t.icon)
      × (t'.description ≡ t.description)
      × (t'.twitter_username ≡ t.twitter_username)
      × (t'.website ≡ t.website)
      × (t'.telegram ≡ t.telegram)

  -- What is known of a token is kept: its key and decimals; its slot, supply and program if it has
  -- them; its texts if it has a symbol and a name.
  pub record KeptToken (t t' : Token F) : Type 0 where
    pub id : t'.id ≡ t.id
    pub chain_id : t'.chain_id ≡ t.chain_id
    pub address : t'.address ≡ t.address
    pub decimals : t'.decimals ≡ t.decimals
    pub slot : (t.slot == 0) ≡ false → t'.slot ≡ t.slot
    pub supply : f.eq_f t.total_supply f.zero_f ≡ false → t'.total_supply ≡ t.total_supply
    pub program : str_eq t.program "" ≡ false → t'.program ≡ t.program
    pub texts : str_eq t.symbol "" ≡ false → str_eq t.name "" ≡ false → SameTexts t t'

  KeptToken-refl : (t : Token F) → KeptToken t t
  KeptToken-refl t = record {
    id = refl;
    chain_id = refl;
    address = refl;
    decimals = refl;
    slot = λ _. refl;
    supply = λ _. refl;
    program = λ _. refl;
    texts = λ _ _. (refl, refl, refl, refl, refl, refl, refl);
  }

  SameTexts-trans : (t u v : Token F) → SameTexts t u → SameTexts u v → SameTexts t v
  SameTexts-trans t u v (a0, a1, a2, a3, a4, a5, a6) (b0, b1, b2, b3, b4, b5, b6) =
      (b0 ∙ a0, b1 ∙ a1, b2 ∙ a2, b3 ∙ a3, b4 ∙ a4, b5 ∙ a5, b6 ∙ a6)

  KeptToken-trans : {t u v : Token F} → KeptToken t u → KeptToken u v → KeptToken t v
  KeptToken-trans {t} {u} {v} a b = record {
    id = b.id ∙ a.id;
    chain_id = b.chain_id ∙ a.chain_id;
    address = b.address ∙ a.address;
    decimals = b.decimals ∙ a.decimals;
    slot = λ h. b.slot (ap (λ n. n == 0) (a.slot h) ∙ h) ∙ a.slot h;
    supply = λ h. b.supply (ap (λ x. f.eq_f x f.zero_f) (a.supply h) ∙ h) ∙ a.supply h;
    program = λ h. b.program (ap (λ p. str_eq p "") (a.program h) ∙ h) ∙ a.program h;
    texts = λ s n.
        let same = a.texts s n in
        SameTexts-trans t u v same
          (b.texts (ap (λ x. str_eq x "") same.1 ∙ s) (ap (λ x. str_eq x "") same.0 ∙ n));
  }

  -- A stage keeps what is known, and leaves a token whose mark it does not set as it is.
  pub record Stage (c c' : Changed F) : Type 0 where
    pub kept : KeptToken c.token c'.token
    pub same_token : c'.change ≡ false → (c'.token ≡ c.token) × (c.change ≡ false)

  Stage-refl : (c : Changed F) → Stage c c
  Stage-refl c = record { kept = KeptToken-refl c.token; same_token = λ h. (refl, h) }

  Stage-trans : {a b c : Changed F} → Stage a b → Stage b c → Stage a c
  Stage-trans p q = record {
    kept = KeptToken-trans p.kept q.kept;
    same_token = λ h.
        let (same, old) = q.same_token h in
        let (same', old') = p.same_token old in (same ∙ same', old');
  }

  -- A stage that changes the token sets the mark.
  Stage-changed :
      (c : Changed F) (t : Token F)
      → KeptToken c.token t
      → Stage c (record { token = t; change = true })
  Stage-changed c t kept = record { kept = kept; same_token = λ h. absurd (cc) }

module _ (f : Floats) where
  open f use {F}

  slot-KeptToken :
      (t : Token F) (x : ℕ) → (t.slot == 0) ≡ true → KeptToken f t (record t { slot = x })
  slot-KeptToken t x h = record {
    id = refl;
    chain_id = refl;
    address = refl;
    decimals = refl;
    slot = λ k. absurd (cc);
    supply = λ _. refl;
    program = λ _. refl;
    texts = λ _ _. (refl, refl, refl, refl, refl, refl, refl);
  }

  supply-KeptToken :
      (t : Token F) (x : F)
      → f.eq_f t.total_supply f.zero_f ≡ true
      → KeptToken f t (record t { total_supply = x })
  supply-KeptToken t x h = record {
    id = refl;
    chain_id = refl;
    address = refl;
    decimals = refl;
    slot = λ _. refl;
    supply = λ k. absurd (cc);
    program = λ _. refl;
    texts = λ _ _. (refl, refl, refl, refl, refl, refl, refl);
  }

  program-KeptToken :
      (t : Token F) (x : String)
      → str_eq t.program "" ≡ true
      → KeptToken f t (record t { program = x })
  program-KeptToken t x h = record {
    id = refl;
    chain_id = refl;
    address = refl;
    decimals = refl;
    slot = λ _. refl;
    supply = λ _. refl;
    program = λ k. absurd (cc);
    texts = λ _ _. (refl, refl, refl, refl, refl, refl, refl);
  }

  no_text :
      (t : Token F)
      → (str_eq t.symbol "" || str_eq t.name "") ≡ true
      → str_eq t.symbol "" ≡ false
      → str_eq t.name "" ≡ false
      → ⊥
  no_text t h s n = ground arith

  texts-KeptToken :
      (t : Token F) (x : TokenInfo)
      → (str_eq t.symbol "" || str_eq t.name "") ≡ true
      → KeptToken f t (with_texts x t)
  texts-KeptToken t x h = record {
    id = refl;
    chain_id = refl;
    address = refl;
    decimals = refl;
    slot = λ _. refl;
    supply = λ _. refl;
    program = λ _. refl;
    texts = λ s n. absurd (no_text t h s n);
  }

  Stage-if :
      (b : Bool) (c x y : Changed F)
      → (b ≡ true → Stage f c x)
      → (b ≡ false → Stage f c y)
      → Stage f c (if b then x else y)
  Stage-if true c x y h k = h refl
  Stage-if false c x y h k = k refl

module _ (f : Floats) (d : Decimals f.F) (web : Web) where
  open f use {F}

  with_slot-Stage :
      (trade : TradeWithPair F) (c : Changed F) → Stage f c (with_slot f d web trade c)
  with_slot-Stage trade c =
      Stage-if f (c.token.slot == 0) c _ _
        (λ empty. Stage-changed f c _ (slot-KeptToken f c.token trade.slot empty))
        (λ _. Stage-refl f c)

  take_supply-Stage :
      (r : Result d.D) (c : Changed F)
      → f.eq_f c.token.total_supply f.zero_f ≡ true
      → Stage f c (take_supply f d web r c)
  take_supply-Stage (err e) c h = Stage-refl f c
  take_supply-Stage (ok supply) c h =
      Stage-changed f c _ (supply-KeptToken f c.token (d.to_float supply) h)

  with_supply-Stage : (c : Changed F) → Stage f c (with_supply f d web c)
  with_supply-Stage c =
      Stage-if f (f.eq_f c.token.total_supply f.zero_f) c _ _
        (take_supply-Stage (get_token_total_supply web d c.token.address) c) (λ _. Stage-refl f c)

  take_program-Stage :
      (p : String) (c : Changed F)
      → str_eq c.token.program "" ≡ true
      → Stage f c (take_program f d web p c)
  take_program-Stage p c h =
      Stage-if f (str_eq p program_token) c _ _
        (λ _. Stage-changed f c _ (program-KeptToken f c.token program_token h))
        (λ _.
          Stage-if f (str_eq p program_token2022) c _ _
            (λ _. Stage-changed f c _ (program-KeptToken f c.token program_token2022 h))
            (λ _. Stage-refl f c))

  with_program-Stage : (c : Changed F) → Stage f c (with_program f d web c)
  with_program-Stage c =
      Stage-if f (str_eq c.token.program "") c _ _
        (take_program-Stage (get_token_program web c.token.address).0 c) (λ _. Stage-refl f c)

  -- … of a stage that can panic.
  abbrev StageTo : Changed F → Option (Changed F) → Type 0
  StageTo c none = Unit
  StageTo c (some c') = Stage f c c'

  StageTo-if :
      (b : Bool) (c : Changed F) (x y : Option (Changed F))
      → (b ≡ true → StageTo c x)
      → (b ≡ false → StageTo c y)
      → StageTo c (if b then x else y)
  StageTo-if true c x y h k = h refl
  StageTo-if false c x y h k = k refl

  with_token_info-Stage :
      (o : Option TokenInfo) (c : Changed F)
      → (str_eq c.token.symbol "" || str_eq c.token.name "") ≡ true
      → Stage f c (with_token_info o c)
  with_token_info-Stage none c h = Stage-refl f c
  with_token_info-Stage (some i) c h = Stage-changed f c _ (texts-KeptToken f c.token i h)

  take_info-StageTo :
      (g : Option Got) (c : Changed F)
      → (str_eq c.token.symbol "" || str_eq c.token.name "") ≡ true
      → StageTo c (take_info f d web g c)
  take_info-StageTo none c h = tt
  take_info-StageTo (some g) c h = with_token_info-Stage g.info c h

  with_names-StageTo : (c : Changed F) → StageTo c (with_names f d web c)
  with_names-StageTo c =
      StageTo-if (str_eq c.token.symbol "" || str_eq c.token.name "") c _ _
        (λ lacks.
          StageTo-if (str_eq c.token.program program_token) c _ _
            (λ _. take_info-StageTo (get_token_info web c.token.address) c lacks)
            (λ _.
              StageTo-if (str_eq c.token.program program_token2022) c _ _
                (λ _. take_info-StageTo (get_token2022_info web c.token.address) c lacks)
                (λ _. Stage-refl f c)))
        (λ _. Stage-refl f c)

  StageTo-some :
      (a b : Changed F) (o : Option (Changed F)) {c : Changed F}
      → Stage f a b
      → StageTo b o
      → o ≡ some c
      → Stage f a c
  StageTo-some a b none p q h = absurd (cc)
  StageTo-some a b (some c') p q h =
      subst (λ x. Stage f a x) (some-injective _ _ h) (Stage-trans f p q)

  -- The token before its texts are looked at.
  abbrev pub unmarked : Token F → Changed F
  unmarked t = record { token = t; change = false }

  abbrev pub before_names : TradeWithPair F → Token F → Changed F
  before_names trade t =
      with_program f d web (with_supply f d web (with_slot f d web trade (unmarked t)))

  pub before_names-Stage :
      (trade : TradeWithPair F) (t : Token F) → Stage f (unmarked t) (before_names trade t)
  before_names-Stage trade t =
      let c1 = with_slot f d web trade (unmarked t) in
      let c2 = with_supply f d web c1 in
      Stage-trans f (with_slot-Stage trade (unmarked t))
        (Stage-trans f (with_supply-Stage c1) (with_program-Stage c2))

  pub refreshed-Stage :
      (trade : TradeWithPair F) (t : Token F) {c : Changed F}
      → refreshed f d web trade t ≡ some c
      → Stage f (unmarked t) c
  unfolding refreshed
  refreshed-Stage trade t h =
      StageTo-some (unmarked t) (before_names trade t) (with_names f d web (before_names trade t))
        (before_names-Stage trade t) (with_names-StageTo (before_names trade t)) h
