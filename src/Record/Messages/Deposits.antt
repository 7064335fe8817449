-- ===== src/Record/Messages/Deposits.antt =====
-- internal/fetch/record/mux.go, `processTx`: the messages behind a deposit.
use midgard.Base.{◌≡◌, refl, ap, true, List, [], ◌∷◌, ◌++◌}
use midgard.Base.Bytes.{Bytes}
use midgard.Record.Monad.{Metadata, Env}
use midgard.Record.Messages.{
  Msg, msg_send, bank_send, msg_deposit, msg_set_version, observed_tx_in, observed_tx_quorum,
  instantiate_contract, execute_contract, other_msg, DecodedTx, TxResult, TxState, load_send,
  passes_deposits, send_then, process_msgs,
}

module _ {S : Type 0} (env : Env S) (tx : DecodedTx) (result : TxResult) (meta : Metadata)
    (successful : result.code ≡ 0) where
  passes : (state : TxState) → passes_deposits result state ≡ true
  unfolding passes_deposits
  passes state = rw successful refl

  -- The messages of a successful transaction that stand behind a deposit are not looked at: what
  -- stands before it alone decides what is recorded.
  pub process_msgs_behind_deposit :
      (before behind : List Msg) (signer memo coins : Bytes) (state : TxState)
      → process_msgs env tx result meta (before ++ msg_deposit signer memo coins ∷ behind) state
        ≡ process_msgs env tx result meta before state
  unfolding process_msgs
  process_msgs_behind_deposit [] behind signer memo coins state = rw (passes state) refl
  process_msgs_behind_deposit (msg_send f t a ∷ before) behind signer memo coins state =
      ap (send_then env (load_send tx result f t a) meta state)
        (process_msgs_behind_deposit before behind signer memo coins state)
  process_msgs_behind_deposit (bank_send f t a ∷ before) behind signer memo coins state =
      ap (send_then env (load_send tx result f t a) meta state)
        (process_msgs_behind_deposit before behind signer memo coins state)
  process_msgs_behind_deposit (msg_deposit g m c ∷ before) behind signer memo coins state =
      rw (passes state) refl
  process_msgs_behind_deposit (msg_set_version g ∷ before) behind signer memo coins state =
      process_msgs_behind_deposit before behind signer memo coins state
  process_msgs_behind_deposit (observed_tx_in txs ∷ before) behind signer memo coins state =
      process_msgs_behind_deposit before behind signer memo coins state
  process_msgs_behind_deposit (observed_tx_quorum t ∷ before) behind signer memo coins state =
      process_msgs_behind_deposit before behind signer memo coins state
  process_msgs_behind_deposit (instantiate_contract a b c d e ∷ before) behind signer memo coins
        state =
      process_msgs_behind_deposit before behind signer memo coins state
  process_msgs_behind_deposit (execute_contract a b c ∷ before) behind signer memo coins state =
      process_msgs_behind_deposit before behind signer memo coins state
  process_msgs_behind_deposit (other_msg ∷ before) behind signer memo coins state =
      process_msgs_behind_deposit before behind signer memo coins state
