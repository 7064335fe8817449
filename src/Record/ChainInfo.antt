-- ===== src/Record/ChainInfo.antt =====
-- internal/fetch/record/chainInfo.go: the status of the pools and the mimir values, kept in memory.
use midgard.Base.{none, some, [], ◌==◌, if◌then◌else◌, ◌≡◌, arith}
use midgard.Base.Bytes.{Bytes, bytes_eq, to_lower}
use midgard.Base.Int.{ℤ, pos}
use midgard.Base.Maps.{Map, lookup, insert, lookup-insert}

pub record ChainInfo : Type 0 where
  pub pools_current : Map Bytes Bytes
  pub mimir_current : Map Bytes ℤ

abbrev pub new_chain_info : ChainInfo
new_chain_info = record { pools_current = []; mimir_current = [] }

unfoldable pub current_pool_status : ChainInfo → Bytes → Bytes
current_pool_status t pool = elim (lookup pool t.pools_current) [ some p ↦ p | none ↦ [] ]

unfoldable pub current_mimir_status : ChainInfo → Bytes → ℤ
current_mimir_status t key = elim (lookup key t.mimir_current) [ some p ↦ p | none ↦ pos 0 ]

unfoldable pub set_pool_status : Bytes → Bytes → ChainInfo → ChainInfo
set_pool_status pool status t = record t {
  pools_current = insert pool (to_lower status) t.pools_current;
}

unfoldable pub set_mimir_status : Bytes → ℤ → ChainInfo → ChainInfo
set_mimir_status key value t = record t { mimir_current = insert key value t.mimir_current }

-- A status that is set is read back in lower case, for its own pool only.
current_pool_status-set_pool_status :
    (pool other status : Bytes) (t : ChainInfo)
    → current_pool_status (set_pool_status pool status t) other
      ≡ (if pool == other then to_lower status else current_pool_status t other)
unfolding current_pool_status set_pool_status
current_pool_status-set_pool_status pool other status t =
    ground (arith, lookup-insert pool other (to_lower status) t.pools_current)

pub current_mimir_status-set_mimir_status :
    (key other : Bytes) (value : ℤ) (t : ChainInfo)
    → current_mimir_status (set_mimir_status key value t) other
      ≡ (if key == other then value else current_mimir_status t other)
unfolding current_mimir_status set_mimir_status
current_mimir_status-set_mimir_status key other value t =
    ground (arith, lookup-insert key other value t.mimir_current)
