-- ===== src/Record/Parents.antt =====
-- internal/fetch/record/mux.go, `processParentTx`: an event gets attributes from the messages of the
-- transaction that it belongs to.
use Prim.Native.String.{String}
use midgard.Base.{
  Bool, true, false, ◌||◌, Option, none, some, List, [], ◌∷◌, ◌++◌, get_elem?, if◌then◌else◌,
}
use midgard.Base.Bytes.{Bytes, codes, same, has_prefix}
use midgard.Base.Int.{ℤ, pos, negsuc}
use midgard.Util.Numbers.{ParseError, parse_int}
use midgard.Record.Blocks.{Attribute, AbciEvent}
use midgard.Record.Load.Reader.{is}
use midgard.Record.Messages.{
  ObservedTx, Msg, msg_send, bank_send, msg_deposit, msg_set_version, observed_tx_in,
  observed_tx_quorum, instantiate_contract, execute_contract, other_msg, DecodedTx,
}
pub mod Extends

-- The attributes that are added; an error; or an index out of range, at which Go panics.
pub data Added : Type 0 where
  adds : List Attribute → Added
  refused : Added
  panics : Added

abbrev pub attr : String → Bytes → Attribute
attr key value = record { key = codes key; value = value }

-- "thorname": the signer of the last message that has one. (The memo that the source takes from a
-- deposit is not what it adds.)
unfoldable pub last_signer : List Msg → Bytes → Bytes
last_signer [] signer = signer
last_signer (msg_deposit signer memo coins ∷ rest) _ = last_signer rest signer
last_signer (msg_send from_addr to_addr amount ∷ rest) _ = last_signer rest from_addr
last_signer (_ ∷ rest) signer = last_signer rest signer

-- The memo and the hash of the last message that has them; `m.Txs[0]` panics if there is none.
unfoldable pub last_memo : List Msg → Bytes × Bytes → Option (Bytes × Bytes)
last_memo [] found = some found
last_memo (msg_deposit signer memo coins ∷ rest) found = last_memo rest (memo, found.1)
last_memo (observed_tx_in [] ∷ rest) found = none
last_memo (observed_tx_in (t ∷ _) ∷ rest) found = last_memo rest (t.memo, t.id)
last_memo (observed_tx_quorum t ∷ rest) found = last_memo rest (t.memo, t.id)
last_memo (_ ∷ rest) found = last_memo rest found

abbrev pub memo_added : Option (Bytes × Bytes) → Added
memo_added none = panics
memo_added (some (memo, hash)) = adds (attr "memo" memo ∷ [])

abbrev pub memo_and_hash_added : Option (Bytes × Bytes) → Added
memo_and_hash_added none = panics
memo_and_hash_added (some (memo, hash)) = adds (attr "memo" memo ∷ attr "tx_id" hash ∷ [])

-- "switch": the value of the last attribute "tx_id", and the first coin of the last observed
-- transaction with that id; `Coins[0]` panics if it has none.
unfoldable pub last_tx_id : List Attribute → Bytes → Bytes
last_tx_id [] id = id
last_tx_id (a ∷ rest) id = last_tx_id rest (if is a "tx_id" then a.value else id)

abbrev pub first_coin : List (Bytes × Bytes) → Option (Bytes × Bytes)
first_coin [] = none
first_coin (c ∷ _) = some c

abbrev pub then_coin {ℓ} : {A B : Type ℓ} → Option A → (A → Option B) → Option B
then_coin none f = none
then_coin (some a) f = f a

abbrev pub coin_if_same : Bytes → ObservedTx → Bytes × Bytes → Option (Bytes × Bytes)
coin_if_same id t found = if same t.id id then first_coin t.coins else some found

unfoldable pub last_observed : Bytes → List ObservedTx → Bytes × Bytes → Option (Bytes × Bytes)
last_observed id [] found = some found
last_observed id (t ∷ rest) found = then_coin (coin_if_same id t found) (last_observed id rest)

unfoldable pub last_deposit : Bytes → List Msg → Bytes × Bytes → Option (Bytes × Bytes)
last_deposit id [] found = some found
last_deposit id (observed_tx_in txs ∷ rest) found =
    then_coin (last_observed id txs found) (last_deposit id rest)
last_deposit id (observed_tx_quorum t ∷ rest) found =
    then_coin (coin_if_same id t found) (last_deposit id rest)
last_deposit id (_ ∷ rest) found = last_deposit id rest found

abbrev pub burn_added : Option (Bytes × Bytes) → Added
burn_added none = panics
burn_added (some (asset, amount)) = adds (attr "burn_asset" asset ∷ attr "burn_amount" amount ∷ [])

-- The first attribute "msg_index", by `strconv.Atoi`, or 0; `none` is an error.
abbrev pub index_or_error : ℤ × Option ParseError → Option ℤ
index_or_error (v, none) = some v
index_or_error (v, some _) = none

unfoldable pub msg_index : List Attribute → Option ℤ
msg_index [] = some (pos 0)
msg_index (a ∷ rest) =
    if is a "msg_index" then index_or_error (parse_int a.value) else msg_index rest

-- The message that the loop stops at.
abbrev pub msg_at : ℤ → List Msg → Option Msg
msg_at (pos i) msgs = get_elem? msgs i
msg_at (negsuc _) msgs = none

abbrev pub with_msg : (Option Msg → List Attribute) → Option ℤ → List Msg → Added
with_msg f none msgs = refused
with_msg f (some i) msgs = adds (f (msg_at i msgs))

unfoldable pub instantiate_attributes : Bytes → Option Msg → List Attribute
instantiate_attributes hash (some (instantiate_contract sender label msg funds admin)) =
    attr "sender" sender
    ∷ attr "label" label
    ∷ attr "msg" msg
    ∷ attr "funds" funds
    ∷ attr "admin_address" admin
    ∷ attr "tx_id" hash
    ∷ []
instantiate_attributes hash _ = []

unfoldable pub bond_attributes : Option Msg → List Attribute
bond_attributes (some (msg_deposit signer memo coins)) = attr "signer" signer ∷ []
bond_attributes (some (msg_set_version signer)) = attr "signer" signer ∷ []
bond_attributes _ = []

unfoldable pub wasm_attributes : Bytes → Option Msg → List Attribute
wasm_attributes hash (some (execute_contract sender msg funds)) =
    attr "tx_id" hash ∷ attr "sender" sender ∷ attr "msg" msg ∷ attr "funds" funds ∷ []
wasm_attributes hash (some (instantiate_contract sender label msg funds admin)) =
    attr "tx_id" hash ∷ attr "sender" sender ∷ attr "msg" msg ∷ attr "funds" funds ∷ []
wasm_attributes hash _ = []

-- The switch over the type of the event.
unfoldable pub added_attributes : DecodedTx → List Msg → AbciEvent → Added
added_attributes tx msgs event =
    if same event.type_name (codes "thorname")
    then adds
        (attr "tx_id" tx.hash ∷ attr "memo" tx.memo ∷ attr "signer" (last_signer msgs []) ∷ [])
    else if same event.type_name (codes "add_liquidity")
    then memo_added (last_memo msgs ([], []))
    else if same event.type_name (codes "switch")
    then burn_added (last_deposit (last_tx_id event.attributes []) msgs ([], []))
    else if same event.type_name (codes "instantiate")
    then with_msg (instantiate_attributes tx.hash) (msg_index event.attributes) msgs
    else if same event.type_name (codes "tcy_claim")
        || same event.type_name (codes "tcy_stake")
        || same event.type_name (codes "tcy_unstake")
    then memo_and_hash_added (last_memo msgs (tx.memo, tx.hash))
    else if same event.type_name (codes "bond")
    then with_msg bond_attributes (msg_index event.attributes) msgs
    else if has_prefix event.type_name (codes "wasm-")
    then with_msg (wasm_attributes tx.hash) (msg_index event.attributes) msgs
    else adds []

-- The event as it was changed, and whether there was an error; `none` is a panic.
abbrev pub with_added : AbciEvent → Added → Option (AbciEvent × Bool)
with_added event (adds more) = some (record event { attributes = event.attributes ++ more }, false)
with_added event refused = some (event, true)
with_added event panics = none

abbrev pub parented : DecodedTx → Option (List Msg) → AbciEvent → Option (AbciEvent × Bool)
parented tx none event = some (event, false)
parented tx (some msgs) event = with_added event (added_attributes tx msgs event)

unfoldable pub process_parent_tx : DecodedTx → AbciEvent → Option (AbciEvent × Bool)
unfolding added_attributes
process_parent_tx tx event = parented tx tx.msgs event
