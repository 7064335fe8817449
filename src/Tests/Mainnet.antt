-- ===== src/Tests/Mainnet.antt =====
-- The corrections of the chain's first network at concrete inputs.
use midgard.Base.{◌≡◌, refl, [], ◌∷◌, arith}
use midgard.Base.Bytes.{bytes_eq, codes, same, contains, has_prefix, to_upper}
use midgard.Record.Coin.{get_coin_type, asset_native, is_switch, is_tcy}
use midgard.Base.Int.{pos, negsuc, int_eq}
use midgard.Base.Maps.{lookup}
use midgard.Record.Monad.{Metadata}
use midgard.Record.Postings.{post, posting, rune}
use midgard.Record.Corrections.{artificial_balance_changes}
use midgard.Record.Corrections.Mainnet.Changes.{
  AllInt64Of, postings_of, artificial_balance_changes-post,
}
use midgard.Record.Corrections.Tables.Pools.{mainnet_artificial_depth_changes}
use midgard.Tests.Record.{list_env, meta_50, start}

abbrev meta_1043090 : Metadata
meta_1043090 = record meta_50 { block_height = pos 1_043_090 }

changes_are_int64 : AllInt64Of (lookup (pos 1_043_090) mainnet_artificial_depth_changes)
unfolding lookup
changes_are_int64 = ((omega arith, omega arith), (omega arith, omega arith), tt)

artificial_balance_changes-post_example :
    (artificial_balance_changes list_env mainnet_artificial_depth_changes
      (codes "fix")
      meta_1043090
      start).1.totals
    ≡ post (postings_of (lookup (pos 1_043_090) mainnet_artificial_depth_changes)) start.totals
artificial_balance_changes-post_example =
    artificial_balance_changes-post list_env mainnet_artificial_depth_changes (codes "fix")
      meta_1043090 start changes_are_int64

posted :
    postings_of (lookup (pos 1_043_090) mainnet_artificial_depth_changes)
    ≡ posting rune (codes "BCH.BCH") (negsuc 0) ∷ []
unfolding lookup
posted = refl

-- The asset that the missing refunds are paid in is not the chain's own coin.
refund_asset : get_coin_type (codes "THOR.RUNE") ≡ asset_native
unfolding get_coin_type is_switch is_tcy same contains has_prefix to_upper
refund_asset = refl
