-- ===== src/Record/Messages.antt =====
-- internal/fetch/record: the messages of a decoded transaction (decoder.go, msg.go), and processTx
-- of mux.go, which records those that send or deposit coins.
use midgard.Base.{
  ℕ, Bool, true, false, ◌||◌, Option, none, some, List, [], ◌∷◌, nat_beq, if◌then◌else◌,
}
use midgard.Base.Bytes.{bytes_eq, Bytes}
use midgard.Base.Int.{ℤ, pos}
use midgard.Base.Maps.{Map, lookup, insert}
use midgard.Record.Load.Reader.{Load, loaded, failed, set}
use midgard.Record.Load.Texts.{coin, parse_cosmos_coin}
use midgard.Record.Monad.{Metadata, Env, Action, ⊤, ◌>>=◌, ◌>>◌, pure}
use midgard.Record.Notices.Transfers.{Send, Deposit, on_msg_send, on_deposit}
pub mod Deposits

-- What the program reads of a transaction that was observed on another chain: its id, its memo and
-- its coins, each with its asset and its amount as texts.
pub record ObservedTx : Type 0 where
  pub id : Bytes
  pub memo : Bytes
  pub coins : List (Bytes × Bytes)

-- The messages, by the texts that the program takes from their methods. They are types of the chain
-- and of its libraries; `other_msg` is any type that the program does not look at.
pub data Msg : Type 0 where
  msg_send bank_send : (from_addr to_addr amount : Bytes) → Msg
  msg_deposit : (signer memo coins : Bytes) → Msg
  msg_set_version : (signer : Bytes) → Msg
  observed_tx_in : List ObservedTx → Msg
  observed_tx_quorum : ObservedTx → Msg
  instantiate_contract : (sender label msg funds admin : Bytes) → Msg
  execute_contract : (sender msg funds : Bytes) → Msg
  other_msg : Msg

-- With no messages at all if the transaction could not be decoded.
pub record DecodedTx : Type 0 where
  pub hash : Bytes
  pub memo : Bytes
  pub msgs : Option (List Msg)

abbrev pub msgs_of : Option (List Msg) → List Msg
msgs_of none = []
msgs_of (some msgs) = msgs

pub record TxResult : Type 0 where
  pub code : ℕ
  pub log : Bytes

-- `Send.LoadTendermint` and `Send.LoadTendermintBank` differ in the methods of the message only.
unfoldable pub load_send : DecodedTx → TxResult → Bytes → Bytes → Bytes → Load Send
load_send tx result from_addr to_addr amount = set (parse_cosmos_coin amount) (λ c. record {
  from_addr = from_addr;
  to_addr = to_addr;
  asset = c.0;
  asset_e8 = c.1;
  memo = tx.memo;
  hash = tx.hash;
  code = pos result.code;
  log = result.log;
})

unfoldable pub load_deposit : DecodedTx → TxResult → Bytes → Bytes → Bytes → Load Deposit
load_deposit tx result signer memo coins = set (coin "malformed coins in msg deposit" coins) (λ c.
    record {
      from_addr = signer;
      asset = c.0;
      code = pos result.code;
      log = result.log;
      asset_e8 = c.1;
      memo = memo;
      hash = tx.hash;
    })

-- The deposits that were recorded, by hash.
abbrev pub TxState : Type 0
TxState = Map Bytes Deposit

-- When a deposit is met its hash is not read yet, so that the state is asked for the empty one.
abbrev pub is_known : Option Deposit → Bool
is_known none = false
is_known (some _) = true

unfoldable pub passes_deposits : TxResult → TxState → Bool
passes_deposits result state = nat_beq result.code 0 || is_known (lookup [] state)

module _ {S : Type 0} (env : Env S) where
  -- An error ends the loop; otherwise `next` is the rest of it.
  abbrev pub send_then :
      Load Send → Metadata → TxState → Action S (Bool × TxState) → Action S (Bool × TxState)
  send_then (loaded e logs) meta state next = on_msg_send env e meta >> next
  send_then (failed err logs) meta state next = pure (true, state)

  abbrev pub deposit_then :
      Load Deposit
      → Metadata
      → TxState
      → (TxState → Action S (Bool × TxState))
      → Action S (Bool × TxState)
  deposit_then (loaded e logs) meta state next =
      on_deposit env e meta >> next (insert e.hash e state)
  deposit_then (failed err logs) meta state next = pure (true, state)

  -- True if there was an error.
  unfoldable pub process_msgs :
      DecodedTx → TxResult → Metadata → List Msg → TxState → Action S (Bool × TxState)
  process_msgs tx result meta [] state = pure (false, state)
  process_msgs tx result meta (msg_send from_addr to_addr amount ∷ rest) state =
      send_then (load_send tx result from_addr to_addr amount) meta state
        (process_msgs tx result meta rest state)
  process_msgs tx result meta (bank_send from_addr to_addr amount ∷ rest) state =
      send_then (load_send tx result from_addr to_addr amount) meta state
        (process_msgs tx result meta rest state)
  process_msgs tx result meta (msg_deposit signer memo coins ∷ rest) state =
      if passes_deposits result state
      then pure (false, state)
      else deposit_then (load_deposit tx result signer memo coins) meta state
          (process_msgs tx result meta rest)
  process_msgs tx result meta (_ ∷ rest) state = process_msgs tx result meta rest state

  unfoldable pub process_tx : DecodedTx → TxResult → Metadata → TxState → Action S (Bool × TxState)
  unfolding process_msgs
  process_tx tx result meta state = process_msgs tx result meta (msgs_of tx.msgs) state
