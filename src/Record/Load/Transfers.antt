-- ===== src/Record/Load/Transfers.antt =====
-- internal/fetch/record/event.go: the readers of switches and transfers.
use midgard.Base.{Bool, true, false, ◌&&◌, ◌||◌, none, some, List, [], if◌then◌else◌}
use midgard.Base.Int.{ℤ, pos, int_beq}
use midgard.Util.Numbers.{parse_int}
use midgard.Record.Blocks.{Attribute}
use midgard.Record.Notices.Transfers.{SwitchEvent, Transfer}
use midgard.Record.Load.Reader.{
  ◌>>=◌, Load, empty_amount, failed, ok, unknown, is, set, each, is_nil,
}
use midgard.Record.Load.Texts.{number, coin, parse_cosmos_coin}

-- A switch as it is read, and whether a minted amount was there. The errors of "burn_amount" and
-- "amount" are not looked at: the number is then what ParseInt returns with the error.
pub record SwitchState : Type 0 where
  pub event : SwitchEvent
  pub had_mint_value : Bool

abbrev pub in_event : SwitchState → (SwitchEvent → SwitchEvent) → SwitchState
in_event s f = record s { event = f s.event }

abbrev pub mint : SwitchState → ℤ → SwitchState
mint s v = record { event = record s.event { mint_e8 = v }; had_mint_value = true }

unfoldable pub switch_event_attribute : Attribute → SwitchState → Load SwitchState
switch_event_attribute a s =
    if is a "txid" || is a "tx_id"
    then ok (in_event s (λ e. record e { tx = some a.value }))
    else if is a "from" || is a "asset_address"
    then ok (in_event s (λ e. record e { from_addr = some a.value }))
    else if is a "to" || is a "rune_address"
    then ok (in_event s (λ e. record e { to_addr = some a.value }))
    else if is a "burn"
    then set (coin "malformed coins in switch event" a.value)
        (λ c. in_event s (λ e. record e { burn_asset = c.0; burn_e8 = c.1 }))
    else if is a "burn_asset"
    then ok (in_event s (λ e. record e { burn_asset = some a.value }))
    else if is a "burn_amount"
    then ok (in_event s (λ e. record e { burn_e8 = (parse_int a.value).0 }))
    else if is a "amount"
    then ok (mint s (parse_int a.value).0)
    else if is a "asset"
    then ok (in_event s (λ e. record e { mint_asset = some a.value }))
    else if is a "mint"
    then set (number "malformed mint value in switch event" a.value) (mint s)
    else unknown "unknown switch event attribute" s

-- Before there was a minted amount, it was the burnt one.
abbrev pub mint_or_burn : Bool → SwitchEvent → SwitchEvent
mint_or_burn true e = e
mint_or_burn false e = record e { mint_e8 = e.burn_e8 }

unfoldable pub load_switch_event : List Attribute → Load SwitchEvent
load_switch_event attrs = do
  s ← each switch_event_attribute attrs (record {
    event = record {
      tx = none;
      from_addr = none;
      to_addr = none;
      burn_asset = none;
      mint_asset = none;
      burn_e8 = pos 0;
      mint_e8 = pos 0;
    };
    had_mint_value = false;
  })
  ok (mint_or_burn s.had_mint_value s.event)

unfoldable pub transfer_attribute : Attribute → Transfer → Load Transfer
transfer_attribute a e =
    if is a "sender"
    then ok (record e { from_addr = some a.value })
    else if is a "recipient"
    then ok (record e { to_addr = some a.value })
    else if is a "amount"
    then set (parse_cosmos_coin a.value) (λ c. record e { asset = c.0; amount_e8 = c.1 })
    else unknown "unknown transfer event attribute" e

unfoldable pub load_transfer : List Attribute → Load Transfer
load_transfer attrs = do
  e ←
      each transfer_attribute attrs
        (record { from_addr = none; to_addr = none; asset = none; amount_e8 = pos 0 })
  (if is_nil e.asset && int_beq e.amount_e8 (pos 0) then failed empty_amount [] else ok e)
