-- ===== src/Util/Memo.antt =====
-- The memo of a transaction: internal/util/util.go, `TxTypeFromMemo`, `CheckMemoIsStreamingSwap`,
-- and the names of pools of synths.
use Prim.Native.String.{String}
use midgard.Base.{ℕ, zero, suc, Bool, false, Option, none, some, List, [], ◌∷◌, if◌then◌else◌}
use midgard.Base.Bytes.{Bytes, codes, same, bytes_eq, contains, to_lower, split2, replace_first}

pub data TxType : Type 0 where
  unknown add withdraw swap limit_order outbound donate bond unbond leave yggdrasil_fund : TxType
  yggdrasil_return reserve refund migrate ragnarok switch no_op consolidate thor_name : TxType
  loan_open loan_repayment trade_account_deposit trade_account_withdrawal : TxType

-- `StringToTxTypeMap`
abbrev string_to_tx_type : List (String × TxType)
string_to_tx_type =
    ("add", add)
    ∷ ("+", add)
    ∷ ("withdraw", withdraw)
    ∷ ("wd", withdraw)
    ∷ ("-", withdraw)
    ∷ ("swap", swap)
    ∷ ("s", swap)
    ∷ ("=", swap)
    ∷ ("limito", limit_order)
    ∷ ("lo", limit_order)
    ∷ ("out", outbound)
    ∷ ("donate", donate)
    ∷ ("d", donate)
    ∷ ("bond", bond)
    ∷ ("unbond", unbond)
    ∷ ("leave", leave)
    ∷ ("yggdrasil+", yggdrasil_fund)
    ∷ ("yggdrasil-", yggdrasil_return)
    ∷ ("reserve", reserve)
    ∷ ("refund", refund)
    ∷ ("migrate", migrate)
    ∷ ("ragnarok", ragnarok)
    ∷ ("switch", switch)
    ∷ ("noop", no_op)
    ∷ ("consolidate", consolidate)
    ∷ ("name", thor_name)
    ∷ ("n", thor_name)
    ∷ ("~", thor_name)
    ∷ ("$+", loan_open)
    ∷ ("loan+", loan_open)
    ∷ ("$-", loan_repayment)
    ∷ ("loan-", loan_repayment)
    ∷ ("trade+", trade_account_deposit)
    ∷ ("trade-", trade_account_withdrawal)
    ∷ []

find_tx_type : Bytes → List (String × TxType) → TxType
find_tx_type action [] = unknown
find_tx_type action ((name, t) ∷ rest) =
    if same (codes name) action then t else find_tx_type action rest

unfoldable pub tx_type_from_memo : Bytes → TxType
unfolding find_tx_type same
tx_type_from_memo memo = find_tx_type (to_lower (split2 b':' memo).0) string_to_tx_type

-- The field of number `n` of `strings.Split(s, sep)`, if there is one.
unfoldable pub field : ℕ → ℕ → Bytes → Option Bytes
field sep zero s = some (split2 sep s).0
field sep (suc n) s = elim ((split2 sep s).1) [ none ↦ none | some rest ↦ field sep n rest ]

unfoldable pub check_memo_is_streaming_swap : Bytes → Bool
check_memo_is_streaming_swap memo = elim (field b':' 3 memo) [
  | none ↦ false
  | some limit ↦ contains b'/' limit
]

unfoldable pub convert_native_pool_to_synth : Bytes → Bytes
convert_native_pool_to_synth = replace_first b'.' b'/'

unfoldable pub convert_synth_pool_to_native : Bytes → Bytes
convert_synth_pool_to_native = replace_first b'/' b'.'
