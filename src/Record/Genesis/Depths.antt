-- ===== src/Record/Genesis/Depths.antt =====
-- internal/fetch/record/genesisrecord.go: the depths that a chain begins with.
use midgard.Base.{
  Bool-cases, inl, inr, ℕ, ◌||◌, nat_beq, arith, ◌≡◌, refl, sym, ◌∙◌, ap, Bool, true, false, List,
  [], ◌∷◌, ◌++◌, Option, none, some, if◌then◌else◌,
}
use midgard.Base.Bytes.{Bytes, upper, to_upper, contains, replace_first}
use midgard.Util.Asset.{asset_from_string-synth}
use midgard.Util.Memo.{convert_synth_pool_to_native}
use mathlib.Core.Path.{subst}
use midgard.Record.Monad.{
  Metadata, Env, Recorder, Action, ⊤, insert_or_log, insert_or_log-totals, when-totals, log-totals,
}
use midgard.Record.Postings.{asset, rune, synth, Posting, posting, post, post-append}
use midgard.Record.Genesis.State.{
  Coin, Balance, GenesisPool, Lp, ThorNameAlias, ThorName, GenesisNode, Loan, Mimir, GenesisData,
}
use midgard.Record.Genesis.Records.{
  increase_metadata, each_increased, record_gen_pool, supply_pool, record_gen_supplies,
  record_gen_coin, record_gen_balances, record_gen_transfers, record_gen_lp, record_gen_alias,
  record_gen_thor_names, record_gen_node, record_gen_loan, record_gen_loans, record_gen_mimir,
  record_gen_pools, denom_or_log, parse_cosmos_denom, record_gen_pending, record_gen_stake,
}
use midgard.Record.Genesis.Start.{record_genesis}

abbrev both : GenesisPool → List Posting
both e = posting asset e.asset e.balance_asset ∷ posting rune e.asset e.balance_rune ∷ []

-- The specification: the pools have their two balances, and each supply is a synth depth.
abbrev pub pool_postings : List GenesisPool → List Posting
pool_postings [] = []
pool_postings (e ∷ rest) =
    posting asset e.asset e.balance_asset ∷ posting rune e.asset e.balance_rune ∷ pool_postings rest

-- The pool of a denomination: in upper case, with a point for the separator of a synth.
abbrev pub pool_of_denom : Bytes → Bytes
pool_of_denom [] = []
pool_of_denom (c ∷ cs) = if nat_beq c b'/' then b'.' ∷ to_upper cs else upper c ∷ pool_of_denom cs

abbrev pub supply_postings : List Coin → List Posting
supply_postings [] = []
supply_postings (c ∷ rest) = posting synth (pool_of_denom c.denom) c.amount ∷ supply_postings rest

abbrev pub genesis_postings : GenesisData → List Posting
genesis_postings g = pool_postings g.pools ++ supply_postings g.supplies

upper_slash : (c : ℕ) → nat_beq (upper c) b'/' ≡ nat_beq c b'/'
unfolding upper
upper_slash c = ground arith

native_of_upper :
    (denom : Bytes)
    → contains b'/' denom ≡ true
    → convert_synth_pool_to_native (to_upper denom) ≡ pool_of_denom denom
unfolding convert_synth_pool_to_native replace_first contains to_upper
native_of_upper [] h = cc
native_of_upper (c ∷ cs) h = elim (Bool-cases (nat_beq c b'/')) [
  | inl slash ↦ rw (upper_slash c, slash) refl
  | inr other ↦
      rw (upper_slash c, other)
        (ap (upper c ∷◌)
          (native_of_upper cs (subst (λ (b : Bool). b || contains b'/' cs ≡ true) other h)))
]

upper_of_plain :
    (denom : Bytes) → contains b'/' denom ≡ false → to_upper denom ≡ pool_of_denom denom
unfolding contains to_upper
upper_of_plain [] h = refl
upper_of_plain (c ∷ cs) h = elim (Bool-cases (nat_beq c b'/')) [
  | inl slash ↦ absurd (ground arith)
  | inr other ↦ rw other (
      ap (upper c ∷◌)
        (upper_of_plain cs (subst (λ (b : Bool). b || contains b'/' cs ≡ false) other h)))
]

supply_pool-pool_of_denom : (c : Coin) → supply_pool c ≡ pool_of_denom c.denom
supply_pool-pool_of_denom c = elim (Bool-cases (contains b'/' c.denom)) [
  | inl slash ↦ rw (asset_from_string-synth c.denom, slash) (native_of_upper c.denom slash)
  | inr plain ↦ rw (asset_from_string-synth c.denom, plain) (upper_of_plain c.denom plain)
]

module _ {S : Type 0} (env : Env S) where
  record_gen_pools-totals :
      (pools : List GenesisPool) (m : Metadata) (s : Recorder S)
      → (record_gen_pools env pools m s).1.totals ≡ post (pool_postings pools) s.totals
  unfolding each_increased record_gen_pool
  record_gen_pools-totals [] m s = refl
  record_gen_pools-totals (e ∷ rest) m s =
      record_gen_pools-totals rest (increase_metadata m) _
      ∙ ap (post (pool_postings rest)) (
          ap (λ t. post (both e) t)
            (insert_or_log-totals env _ m _ _ _ ∙ insert_or_log-totals env _ m _ _ s))

  record_gen_supplies-totals :
      (supplies : List Coin) (s : Recorder S)
      → (record_gen_supplies env supplies s).1.totals ≡ post (supply_postings supplies) s.totals
  unfolding record_gen_supplies
  record_gen_supplies-totals [] s = refl
  record_gen_supplies-totals (c ∷ rest) s =
      rw⁻¹ (supply_pool-pool_of_denom c) (record_gen_supplies-totals rest _)

  -- The other records move no depth.
  each_increased-totals :
      {A : Type 0} (body : A → Metadata → Action S ⊤)
      → ((a : A) (m : Metadata) (s : Recorder S) → (body a m s).1.totals ≡ s.totals)
      → (xs : List A) (m : Metadata) (s : Recorder S)
      → (each_increased body xs m s).1.totals ≡ s.totals
  unfolding each_increased
  each_increased-totals body keeps [] m s = refl
  each_increased-totals body keeps (x ∷ xs) m s =
      each_increased-totals body keeps xs (increase_metadata m) _ ∙ keeps x m s

  denom_or_log-totals :
      (asset : Option Bytes) (s : Recorder S) → (denom_or_log env asset s).1.totals ≡ s.totals
  denom_or_log-totals none s = refl
  denom_or_log-totals (some a) s = refl

  if-totals :
      (b : Bool) (x y : Action S Metadata) (s : Recorder S)
      → (x s).1.totals ≡ s.totals
      → (y s).1.totals ≡ s.totals
      → ((if b then x else y) s).1.totals ≡ s.totals
  if-totals true x y s h k = h
  if-totals false x y s h k = k

  record_gen_coin-totals :
      (address : Bytes) (c : Coin) (m : Metadata) (s : Recorder S)
      → (record_gen_coin env address c m s).1.totals ≡ s.totals
  unfolding record_gen_coin
  record_gen_coin-totals address c m s =
      insert_or_log-totals env _ m _ _ _ ∙ denom_or_log-totals (parse_cosmos_denom c.denom) s

  record_gen_balances-totals :
      (balances : List Balance) (m : Metadata) (s : Recorder S)
      → (record_gen_balances env balances m s).1.totals ≡ s.totals
  unfolding record_gen_balances
  record_gen_balances-totals [] m s = refl
  record_gen_balances-totals (b ∷ rest) m s =
      record_gen_balances-totals rest _ _
      ∙ each_increased-totals _ (record_gen_coin-totals b.address) b.coins m _
      ∙ log-totals _ _ s

  record_gen_transfers-totals :
      (balances : List Balance) (m : Metadata) (s : Recorder S)
      → (record_gen_transfers env balances m s).1.totals ≡ s.totals
  unfolding record_gen_transfers
  record_gen_transfers-totals balances m s =
      if-totals env.on_transfer_enabled (record_gen_balances env balances m) _ s
        (record_gen_balances-totals balances m s) refl

  record_gen_lp-totals :
      (e : Lp) (m : Metadata) (s : Recorder S) → (record_gen_lp env e m s).1.totals ≡ s.totals
  unfolding record_gen_lp record_gen_pending record_gen_stake
  record_gen_lp-totals e m s =
      when-totals _ (record_gen_stake env e m) _ (insert_or_log-totals env _ m _ _ _)
      ∙ when-totals _ (record_gen_pending env e m) s (insert_or_log-totals env _ m _ _ s)

  record_gen_alias-totals :
      (ci : Bytes → Bool) (e : ThorName) (a : ThorNameAlias) (m : Metadata) (s : Recorder S)
      → (record_gen_alias env ci e a m s).1.totals ≡ s.totals
  unfolding record_gen_alias
  record_gen_alias-totals ci e a m s = insert_or_log-totals env _ m _ _ s

  record_gen_thor_names-totals :
      (ci : Bytes → Bool) (names : List ThorName) (m : Metadata) (s : Recorder S)
      → (record_gen_thor_names env ci names m s).1.totals ≡ s.totals
  unfolding record_gen_thor_names
  record_gen_thor_names-totals ci [] m s = refl
  record_gen_thor_names-totals ci (e ∷ rest) m s =
      record_gen_thor_names-totals ci rest _ _
      ∙ each_increased-totals _ (record_gen_alias-totals ci e) e.aliases m s

  record_gen_node-totals :
      (e : GenesisNode) (m : Metadata) (s : Recorder S)
      → (record_gen_node env e m s).1.totals ≡ s.totals
  unfolding record_gen_node
  record_gen_node-totals e m s =
      insert_or_log-totals env _ m _ _ _ ∙ insert_or_log-totals env _ m _ _ s

  record_gen_loans-totals :
      (loans : List Loan) (m : Metadata) (s : Recorder S)
      → (record_gen_loans env loans m s).1.totals ≡ s.totals
  unfolding record_gen_loans record_gen_loan
  record_gen_loans-totals [] m s = refl
  record_gen_loans-totals (e ∷ rest) m s =
      record_gen_loans-totals rest _ _
      ∙ when-totals _ (insert_or_log env _ _ _ _) _ (insert_or_log-totals env _ _ _ _ _)
      ∙ insert_or_log-totals env _ _ _ _ s

  record_gen_mimir-totals :
      (e : Mimir) (m : Metadata) (s : Recorder S) → (record_gen_mimir env e m s).1.totals ≡ s.totals
  unfolding record_gen_mimir
  record_gen_mimir-totals e m s = insert_or_log-totals env _ m _ _ s

  -- Whatever the inserter does, the depths after the genesis are those that the ledger gives for the
  -- balances of its pools and for its supplies, each of which, that of a coin that is no synth too, is
  -- added to the synth depth of the pool named like its denomination: nothing else moves a depth.
  pub record_genesis-totals :
      (ci : Bytes → Bool) (g : GenesisData) (m : Metadata) (s : Recorder S)
      → (record_genesis env ci g m s).1.totals ≡ post (genesis_postings g) s.totals
  unfolding record_genesis
  record_genesis-totals ci g m s =
      each_increased-totals _ record_gen_mimir-totals g.mimirs _ _
      ∙ record_gen_loans-totals g.loans _ _
      ∙ each_increased-totals _ record_gen_node-totals g.nodes _ _
      ∙ record_gen_thor_names-totals ci g.thor_names _ _
      ∙ each_increased-totals _ record_gen_lp-totals g.lps _ _
      ∙ record_gen_transfers-totals g.balances _ _
      ∙ record_gen_supplies-totals g.supplies _
      ∙ ap (post (supply_postings g.supplies)) (record_gen_pools-totals g.pools m s)
      ∙ sym (post-append (pool_postings g.pools) (supply_postings g.supplies) s.totals)
