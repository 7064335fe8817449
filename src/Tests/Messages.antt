-- ===== src/Tests/Messages.antt =====
-- Messages and parents of events at concrete inputs.
use midgard.Base.{◌≡◌, refl, false, some, [], ◌∷◌}
use midgard.Base.Bytes.{codes, same}
use midgard.Record.Blocks.{AbciEvent}
use midgard.Record.Messages.{
  Msg, msg_send, msg_deposit, observed_tx_in, ObservedTx, DecodedTx, TxResult, process_msgs,
}
use midgard.Record.Messages.Deposits.{process_msgs_behind_deposit}
use midgard.Record.Parents.{
  process_parent_tx, added_attributes, last_deposit, last_observed, last_tx_id,
}
use midgard.Record.Parents.Extends.{Extends, process_parent_tx-Extends}
use midgard.Record.Dispatch.Filter.{event_with}
use midgard.Record.Load.Swaps.Printed.{attribute}
use midgard.Tests.Record.{list_env, meta_50}

abbrev sent : Msg
sent = msg_send (codes "alice") (codes "bob") (codes "12rune")

abbrev seen : ObservedTx
seen = record {
  id = codes "A1";
  memo = codes "switch:thor1";
  coins = (codes "GAIA.KUJI", codes "77") ∷ [];
}

abbrev decoded : DecodedTx
decoded = record {
  hash = codes "A0";
  memo = codes "m";
  msgs = some (observed_tx_in (seen ∷ []) ∷ sent ∷ []);
}

abbrev success : TxResult
success = record { code = 0; log = [] }

process_msgs_behind_deposit_example :
    process_msgs list_env decoded success meta_50
      (sent ∷ msg_deposit (codes "carol") (codes "=:r") (codes "5 BNB.BNB") ∷ sent ∷ [])
      []
    ≡ process_msgs list_env decoded success meta_50 (sent ∷ []) []
process_msgs_behind_deposit_example =
    process_msgs_behind_deposit list_env decoded success meta_50 refl (sent ∷ []) (sent ∷ [])
      (codes "carol") (codes "=:r") (codes "5 BNB.BNB") []

abbrev switch_event : AbciEvent
switch_event = event_with (codes "switch") (attribute "tx_id" (codes "A1") ∷ [])

process_parent_tx-Extends_example : Extends switch_event (process_parent_tx decoded switch_event)
process_parent_tx-Extends_example =
    process_parent_tx-Extends decoded switch_event ((tt, (tt, tt)), (tt, tt))

switch_gets_coin :
    process_parent_tx decoded switch_event
    ≡ some (
      event_with (codes "switch") (
          attribute "tx_id" (codes "A1")
          ∷ attribute "burn_asset" (codes "GAIA.KUJI")
          ∷ attribute "burn_amount" (codes "77")
          ∷ []),
      false,
    )
unfolding process_parent_tx added_attributes last_deposit last_observed last_tx_id same
switch_gets_coin = refl
