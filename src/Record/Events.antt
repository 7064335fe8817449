-- ===== src/Record/Events.antt =====
-- internal/fetch/record/event.go: the events that the recorder acts on. A byte slice may be nil
-- (`Slice`); a float64 is kept as its bit pattern.
use midgard.Base.{ℕ, Bool, List}
use midgard.Base.Bytes.{Bytes, Slice}
use midgard.Base.Int.{ℤ}

pub record Amount : Type 0 where
  pub asset : Slice
  pub e8 : ℤ

pub record Add : Type 0 where
  pub tx : Slice
  pub chain : Slice
  pub from_addr : Slice
  pub to_addr : Slice
  pub asset : Slice
  pub asset_e8 : ℤ
  pub memo : Slice
  pub rune_e8 : ℤ
  pub pool : Slice

pub record Errata : Type 0 where
  pub in_tx : Slice
  pub asset : Slice
  pub asset_e8 : ℤ
  pub rune_e8 : ℤ

pub record Fee : Type 0 where
  pub tx : Slice
  pub asset : Slice
  pub asset_e8 : ℤ
  pub pool_deduct : ℤ

pub record Gas : Type 0 where
  pub asset : Slice
  pub asset_e8 : ℤ
  pub rune_e8 : ℤ
  pub tx_count : ℤ

pub record Pool : Type 0 where
  pub asset : Slice
  pub status : Slice

pub record Rewards : Type 0 where
  pub bond_e8 : ℤ
  pub per_pool : List Amount

pub record SetMimir : Type 0 where
  pub key : Slice
  pub value : Slice

pub record Slash : Type 0 where
  pub pool : Slice
  pub amounts : List Amount

pub record AddBase : Type 0 where
  pub pool : Slice
  pub asset_tx : Slice
  pub asset_chain : Slice
  pub asset_addr : Slice
  pub asset_e8 : ℤ
  pub rune_tx : Slice
  pub rune_chain : Slice
  pub rune_addr : Slice
  pub memo : Slice
  pub rune_e8 : ℤ

pub record Stake : Type 0 where
  pub base : AddBase
  pub open base use *
  pub stake_units : ℤ

pub record Swap : Type 0 where
  pub tx : Slice
  pub chain : Slice
  pub from_addr : Slice
  pub to_addr : Slice
  pub from_asset : Slice
  pub from_e8 : ℤ
  pub to_asset : Slice
  pub to_e8 : ℤ
  pub memo : Slice
  pub pool : Slice
  pub to_e8_min : ℤ
  pub swap_slip_bp : ℤ
  pub liq_fee_e8 : ℤ
  pub liq_fee_in_rune_e8 : ℤ
  pub streaming_quantity : ℤ
  pub streaming_count : ℤ

pub record Withdraw : Type 0 where
  pub tx : Slice
  pub chain : Slice
  pub from_addr : Slice
  pub to_addr : Slice
  pub asset : Slice
  pub asset_e8 : ℤ
  pub emit_asset_e8 : ℤ
  pub emit_rune_e8 : ℤ
  pub memo : Slice
  pub pool : Slice
  pub stake_units : ℤ
  pub basis_points : ℤ
  pub asymmetry : ℕ
  pub imp_loss_protection_e8 : ℤ

pub record PoolBalanceChange : Type 0 where
  pub asset : Slice
  pub rune_amt : ℤ
  pub rune_add : Bool
  pub asset_amt : ℤ
  pub asset_add : Bool
  pub reason : Bytes

pub record MintBurn : Type 0 where
  pub asset : Slice
  pub asset_e8 : ℤ
  pub reason : Slice
  pub supply : Slice

-- `TradeAccountWithdraw`, `TradeAccountDeposit`, `SecureAssetWithdraw` and `SecureAssetDeposit`
-- have these same fields.
pub record AccountMove : Type 0 where
  pub tx : Slice
  pub asset : Slice
  pub asset_addr : Slice
  pub rune_addr : Slice
  pub amt_e8 : ℤ

pub record Coinbase : Type 0 where
  pub asset : Slice
  pub asset_e8 : ℤ
  pub receiver : Slice

pub record Burn : Type 0 where
  pub asset : Slice
  pub asset_e8 : ℤ
  pub burner : Slice

pub record AffiliateFee : Type 0 where
  pub tx : Slice
  pub fee_amt : ℤ
  pub gross_amt : ℤ
  pub fee_bps : ℤ
  pub thor_name : Slice
  pub rune_addr : Slice
  pub memo : Slice
  pub asset : Slice
