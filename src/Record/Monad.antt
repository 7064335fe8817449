-- ===== src/Record/Monad.antt =====
-- The recorder as a state: the running totals, the chain info, what the inserter has of rows, and
-- the lines that were logged of events that could not be recorded. A handler is an action on it.
use Prim.Native.String.{String}
use midgard.Base.{
  ◌≡◌, ◌≢◌, refl, Bool, true, false, Option, none, some, List, [], ◌∷◌, ◌++◌, if◌then◌else◌,
}
use midgard.Base.Bytes.{Bytes}
use midgard.Base.Int.{ℤ}
use midgard.Db.EventId.{EventId, as_bigint}
use midgard.Record.Totals.{
  RunningTotals, PoolDepths, current_depths, add_pool_asset_e8_depth, add_pool_rune_e8_depth,
  add_pool_synth_e8_depth,
}
use midgard.Record.ChainInfo.{ChainInfo}
pub use midgard.Db.Rows.{
  Value, null, text, int, bool, float, tx_type, texts, ints, json, slice, or_empty, str-or_empty,
  Row,
}

-- `Metadata`; the block's time is its Unix time in nanoseconds.
pub record Metadata : Type 0 where
  pub block_height : ℤ
  pub block_timestamp : ℤ
  pub event_id : EventId

-- The place where rows go, and the settings that the handlers read: the heights at which the chain
-- changed, the switches of the configuration, and `int64(float64(e8)*(float64(rE8)/float64(aE8)) +
-- 0.5)`, which is computed in floating point.
pub record Env (S : Type 0) : Type 0 where
  pub insert_row : Row → S → Option Bytes × S
  pub withdraw_coin_kept_height : ℤ
  pub withdraw_coin_pooled_height : ℤ
  pub undelayed_liquidity_fees_height : ℤ
  pub on_message_enabled : Bool
  pub on_transfer_enabled : Bool
  pub in_rune : ℤ → ℤ → ℤ → ℤ

pub record Recorder (S : Type 0) : Type 0 where
  pub totals : RunningTotals
  pub info : ChainInfo
  pub store : S
  pub logs : List String

abbrev pub ⊤ : Type 0
⊤ = Unit

abbrev pub Action : Type 0 → Type 0 → Type 0
Action S A = Recorder S → A × Recorder S

infixl 5 ◌>>=◌ ◌>>◌
abbrev pub ◌>>=◌ : {S A B : Type 0} → Action S A → (A → Action S B) → Action S B
◌>>=◌ m f s = let (a, s') = m s in f a s'

abbrev pub ◌>>◌ : {S B : Type 0} → Action S ⊤ → Action S B → Action S B
m >> k = m >>= λ _. k

module _ {S : Type 0} where
  abbrev pub pure : {A : Type 0} → A → Action S A
  pure a s = (a, s)

  abbrev pub skip : Action S ⊤
  skip s = (tt, s)

  -- `miderr.LogEventParseErrorF`; the line stands for its format.
  abbrev pub log_event_parse_error : String → Action S ⊤
  log_event_parse_error line s = (tt, record s { logs = s.logs ++ line ∷ [] })

  abbrev pub change_totals : (RunningTotals → RunningTotals) → Action S ⊤
  change_totals f s = (tt, record s { totals = f s.totals })

  abbrev pub change_info : (ChainInfo → ChainInfo) → Action S ⊤
  change_info f s = (tt, record s { info = f s.info })

  abbrev pub get_depths : Bytes → Action S PoolDepths
  get_depths pool s = (current_depths s.totals pool, s)

  abbrev pub add_asset : Bytes → ℤ → Action S ⊤
  add_asset pool e8 = change_totals (add_pool_asset_e8_depth pool e8)

  abbrev pub add_rune : Bytes → ℤ → Action S ⊤
  add_rune pool e8 = change_totals (add_pool_rune_e8_depth pool e8)

  abbrev pub add_synth : Bytes → ℤ → Action S ⊤
  add_synth pool e8 = change_totals (add_pool_synth_e8_depth pool e8)

  abbrev pub when : Bool → Action S ⊤ → Action S ⊤
  when c m = if c then m else skip

abbrev pub is_error : Option Bytes → Bool
is_error none = false
is_error (some _) = true

pub is_error_of_ne_none : (o : Option Bytes) → o ≢ none → is_error o ≡ true
is_error_of_ne_none none h = absurd (h refl)
is_error_of_ne_none (some _) h = refl

-- `InsertWithMeta`: true if the inserter returned an error.
unfoldable pub insert_with_meta :
    {S : Type 0} → Env S → String → Metadata → List String → List Value → Action S Bool
insert_with_meta env table meta cols values s =
    let row : Row = record {
      table = table;
      columns = cols ++ "event_id" ∷ "block_timestamp" ∷ [];
      values = values ++ int (as_bigint meta.event_id) ∷ int meta.block_timestamp ∷ [];
    } in
    let (err, store) = env.insert_row row s.store in (is_error err, record s { store = store })

-- The shape of the handlers that write one row and do no more.
unfoldable pub insert_or_log :
    {S : Type 0} → Env S → String → Metadata → List String → List Value → Action S ⊤
unfolding insert_with_meta
insert_or_log env table meta cols values = do
  failed ← insert_with_meta env table meta cols values
  when failed (log_event_parse_error table)

-- The inserter returns no error, as the batch inserter does.
abbrev pub NeverFails : {S : Type 0} → Env S → Type 0
NeverFails {S} env = (row : Row) (store : S) → (env.insert_row row store).0 ≡ none

pub log-totals :
    {S : Type 0} (c : Bool) (line : String) (s : Recorder S)
    → (when c (log_event_parse_error line) s).1.totals ≡ s.totals
log-totals true line s = refl
log-totals false line s = refl

pub insert_or_log-totals :
    {S : Type 0} (env : Env S) (table : String) (meta : Metadata) (cols : List String)
    (values : List Value) (s : Recorder S)
    → (insert_or_log env table meta cols values s).1.totals ≡ s.totals
unfolding insert_or_log
insert_or_log-totals env table meta cols values s = log-totals _ table _

pub when-totals :
    {S : Type 0} (c : Bool) (m : Action S ⊤) (s : Recorder S)
    → (m s).1.totals ≡ s.totals
    → (when c m s).1.totals ≡ s.totals
when-totals true m s h = h
when-totals false m s h = refl
