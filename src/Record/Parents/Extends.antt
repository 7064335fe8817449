-- ===== src/Record/Parents/Extends.antt =====
-- internal/fetch/record/mux.go, `processParentTx`: what it does to an event.
use midgard.Base.{
  ◌≡◌, refl, Bool, true, false, Option, none, some, List, [], ◌∷◌, ◌++◌, if◌then◌else◌,
}
use mathlib.Core.List.{append-nil}
use midgard.Base.Bytes.{Bytes, same}
use midgard.Base.Int.{ℤ}
use midgard.Record.Blocks.{Attribute, AbciEvent}
use midgard.Record.Messages.{
  ObservedTx, Msg, msg_send, bank_send, msg_deposit, msg_set_version, observed_tx_in,
  observed_tx_quorum, instantiate_contract, execute_contract, other_msg, DecodedTx, msgs_of,
}
use midgard.Record.Parents.{
  Added, adds, refused, panics, last_memo, last_observed, last_deposit, coin_if_same, first_coin,
  then_coin, memo_added, memo_and_hash_added, burn_added, with_msg, added_attributes, with_added,
  process_parent_tx, parented, last_tx_id,
}

abbrev pub NonEmpty {ℓ} : {A : Type ℓ} → List A → Type 0
NonEmpty [] = ⊥
NonEmpty (_ ∷ _) = Unit

-- Every observation has a transaction, and every observed transaction has a coin.
abbrev pub HaveCoins : List ObservedTx → Type 0
HaveCoins [] = Unit
HaveCoins (t ∷ rest) = NonEmpty t.coins × HaveCoins rest

abbrev pub IsObserved : Msg → Type 0
IsObserved (observed_tx_in txs) = NonEmpty txs × HaveCoins txs
IsObserved (observed_tx_quorum t) = NonEmpty t.coins
IsObserved _ = Unit

abbrev pub AllObserved : List Msg → Type 0
AllObserved [] = Unit
AllObserved (m ∷ rest) = IsObserved m × AllObserved rest

abbrev Found : Option (Bytes × Bytes) → Type 0
Found none = ⊥
Found (some _) = Unit

last_memo-Found :
    (msgs : List Msg) (found : Bytes × Bytes) → AllObserved msgs → Found (last_memo msgs found)
unfolding last_memo
last_memo-Found [] found h = tt
last_memo-Found (msg_send f t a ∷ rest) found h = last_memo-Found rest found h.1
last_memo-Found (bank_send f t a ∷ rest) found h = last_memo-Found rest found h.1
last_memo-Found (msg_deposit g m c ∷ rest) found h = last_memo-Found rest (m, found.1) h.1
last_memo-Found (msg_set_version g ∷ rest) found h = last_memo-Found rest found h.1
last_memo-Found (observed_tx_in [] ∷ rest) found h = absurd h.0.0
last_memo-Found (observed_tx_in (t ∷ ts) ∷ rest) found h = last_memo-Found rest (t.memo, t.id) h.1
last_memo-Found (observed_tx_quorum t ∷ rest) found h = last_memo-Found rest (t.memo, t.id) h.1
last_memo-Found (instantiate_contract a b c d e ∷ rest) found h = last_memo-Found rest found h.1
last_memo-Found (execute_contract a b c ∷ rest) found h = last_memo-Found rest found h.1
last_memo-Found (other_msg ∷ rest) found h = last_memo-Found rest found h.1

first_coin-Found : (coins : List (Bytes × Bytes)) → NonEmpty coins → Found (first_coin coins)
first_coin-Found [] h = h
first_coin-Found (c ∷ coins) h = tt

then_coin-Found :
    (o : Option (Bytes × Bytes)) (f : Bytes × Bytes → Option (Bytes × Bytes))
    → Found o
    → ((c : Bytes × Bytes) → Found (f c))
    → Found (then_coin o f)
then_coin-Found none f h g = absurd h
then_coin-Found (some c) f h g = g c

if-Found :
    (b : Bool) (o p : Option (Bytes × Bytes)) → Found o → Found p → Found (if b then o else p)
if-Found true o p h k = h
if-Found false o p h k = k

coin_if_same-Found :
    (id : Bytes) (t : ObservedTx) (found : Bytes × Bytes)
    → NonEmpty t.coins
    → Found (coin_if_same id t found)
coin_if_same-Found id t found h =
    if-Found (same t.id id) (first_coin t.coins) (some found) (first_coin-Found t.coins h) tt

last_observed-Found :
    (id : Bytes) (txs : List ObservedTx) (found : Bytes × Bytes)
    → HaveCoins txs
    → Found (last_observed id txs found)
unfolding last_observed
last_observed-Found id [] found h = tt
last_observed-Found id (t ∷ rest) found h =
    then_coin-Found (coin_if_same id t found) (last_observed id rest)
      (coin_if_same-Found id t found h.0) (λ c. last_observed-Found id rest c h.1)

last_deposit-Found :
    (id : Bytes) (msgs : List Msg) (found : Bytes × Bytes)
    → AllObserved msgs
    → Found (last_deposit id msgs found)
unfolding last_deposit
last_deposit-Found id [] found h = tt
last_deposit-Found id (msg_send f t a ∷ rest) found h = last_deposit-Found id rest found h.1
last_deposit-Found id (bank_send f t a ∷ rest) found h = last_deposit-Found id rest found h.1
last_deposit-Found id (msg_deposit g m c ∷ rest) found h = last_deposit-Found id rest found h.1
last_deposit-Found id (msg_set_version g ∷ rest) found h = last_deposit-Found id rest found h.1
last_deposit-Found id (observed_tx_in txs ∷ rest) found h =
    then_coin-Found (last_observed id txs found) (last_deposit id rest)
      (last_observed-Found id txs found h.0.1) (λ c. last_deposit-Found id rest c h.1)
last_deposit-Found id (observed_tx_quorum t ∷ rest) found h =
    then_coin-Found (coin_if_same id t found) (last_deposit id rest)
      (coin_if_same-Found id t found h.0) (λ c. last_deposit-Found id rest c h.1)
last_deposit-Found id (instantiate_contract a b c d e ∷ rest) found h =
    last_deposit-Found id rest found h.1
last_deposit-Found id (execute_contract a b c ∷ rest) found h = last_deposit-Found id rest found h.1
last_deposit-Found id (other_msg ∷ rest) found h = last_deposit-Found id rest found h.1

-- No panic.
abbrev Safe : Added → Type 0
Safe panics = ⊥
Safe (adds more) = Unit
Safe refused = Unit

memo_added-Safe :
    (o : Option (Bytes × Bytes)) → Found o → Safe (memo_added o) × Safe (memo_and_hash_added o)
memo_added-Safe none h = absurd h
memo_added-Safe (some c) h = (tt, tt)

burn_added-Safe : (o : Option (Bytes × Bytes)) → Found o → Safe (burn_added o)
burn_added-Safe none h = absurd h
burn_added-Safe (some c) h = tt

with_msg-Safe :
    (f : Option Msg → List Attribute) (i : Option ℤ) (msgs : List Msg) → Safe (with_msg f i msgs)
with_msg-Safe f none msgs = tt
with_msg-Safe f (some i) msgs = tt

adds-Safe : (more : List Attribute) → Safe (adds more)
adds-Safe more = tt

if-Safe : (b : Bool) (x y : Added) → Safe x → Safe y → Safe (if b then x else y)
if-Safe true x y h k = h
if-Safe false x y h k = k

added_attributes-Safe :
    (tx : DecodedTx) (msgs : List Msg) (event : AbciEvent)
    → AllObserved msgs
    → Safe (added_attributes tx msgs event)
unfolding added_attributes
added_attributes-Safe tx msgs event h =
    let memo = memo_added-Safe (last_memo msgs ([], [])) (last_memo-Found msgs ([], []) h) in
    let both =
      memo_added-Safe (last_memo msgs (tx.memo, tx.hash))
        (last_memo-Found msgs (tx.memo, tx.hash) h) in
    let id = last_tx_id event.attributes [] in
    let burn =
      burn_added-Safe (last_deposit id msgs ([], [])) (last_deposit-Found id msgs ([], []) h) in
    search (if-Safe, with_msg-Safe, adds-Safe, memo.0, both.1, burn) depth 12

-- The event with attributes behind its own, none if there was an error.
abbrev pub Extends : AbciEvent → Option (AbciEvent × Bool) → Type 0
Extends event r =
    (more : List Attribute) × (failed : Bool) × (r
      ≡ some (record event { attributes = event.attributes ++ more }, failed))
    × (failed ≡ true → more ≡ [])

unchanged : (event : AbciEvent) (failed : Bool) → Extends event (some (event, failed))
unchanged event failed = ([], failed, rw append-nil refl, λ h. refl)

with_added-Extends : (event : AbciEvent) (r : Added) → Safe r → Extends event (with_added event r)
with_added-Extends event (adds more) h = (more, false, refl, λ h. cc)
with_added-Extends event refused h = unchanged event true
with_added-Extends event panics h = absurd h

parented-Extends :
    (tx : DecodedTx) (msgs : Option (List Msg)) (event : AbciEvent)
    → AllObserved (msgs_of msgs)
    → Extends event (parented tx msgs event)
parented-Extends tx none event h = unchanged event false
parented-Extends tx (some msgs) event h =
    with_added-Extends event (added_attributes tx msgs event)
      (added_attributes-Safe tx msgs event h)

-- If every observation among the messages has a transaction and each of these has a coin, then
-- nothing panics, and an event keeps its type and its attributes and only gets more of them behind;
-- with an error it gets none.
pub process_parent_tx-Extends :
    (tx : DecodedTx) (event : AbciEvent)
    → AllObserved (msgs_of tx.msgs)
    → Extends event (process_parent_tx tx event)
unfolding process_parent_tx
process_parent_tx-Extends tx event h = parented-Extends tx tx.msgs event h
