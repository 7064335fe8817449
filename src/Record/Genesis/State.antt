-- ===== src/Record/Genesis/State.antt =====
-- internal/db/genesis.go: the state that a genesis file holds, as far as the program reads it.
use midgard.Base.{List}
use midgard.Base.Bytes.{Bytes}
use midgard.Base.Int.{ℤ}

pub record Coin : Type 0 where
  pub amount : ℤ
  pub denom : Bytes

pub record Balance : Type 0 where
  pub address : Bytes
  pub coins : List Coin

pub record GenesisPool : Type 0 where
  pub balance_rune : ℤ
  pub balance_asset : ℤ
  pub asset : Bytes
  pub status : Bytes

pub record Lp : Type 0 where
  pub pool : Bytes
  pub asset_addr : Bytes
  pub asset_e8 : ℤ
  pub pending_asset : ℤ
  pub rune_addr : Bytes
  pub rune_e8 : ℤ
  pub pending_rune : ℤ
  pub units : ℤ

pub record ThorNameAlias : Type 0 where
  pub chain : Bytes
  pub address : Bytes

pub record ThorName : Type 0 where
  pub name : Bytes
  pub expire_block_height : ℤ
  pub owner : Bytes
  pub aliases : List ThorNameAlias

pub record GenesisNode : Type 0 where
  pub node_address : Bytes
  pub status : Bytes
  pub bond_e8 : ℤ
  pub bond_addr : Bytes

pub record Loan : Type 0 where
  pub asset : Bytes
  pub owner : Bytes
  pub collateral_deposited : ℤ
  pub collateral_withdrawn : ℤ
  pub debt_issued : ℤ
  pub debt_repaid : ℤ
  pub last_open_height : ℤ

pub record Mimir : Type 0 where
  pub key : Bytes
  pub value : ℤ

-- The application's state, and the time of the genesis.
pub record GenesisData : Type 0 where
  pub genesis_time : ℤ
  pub pools : List GenesisPool
  pub supplies : List Coin
  pub balances : List Balance
  pub lps : List Lp
  pub thor_names : List ThorName
  pub nodes : List GenesisNode
  pub loans : List Loan
  pub mimirs : List Mimir
