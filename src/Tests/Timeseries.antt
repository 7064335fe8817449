-- ===== src/Tests/Timeseries.antt =====
-- The depth recorder and the latest state at concrete inputs.
use midgard.Base.{
  ℕ, ◌≡◌, refl, ◌&&◌, ◌||◌, not, Bool-cases, inl, inr, none, some, List, [], ◌∷◌, ◌++◌, ◌==◌, ltb,
  if◌then◌else◌, arith,
}
use midgard.Base.Bytes.{Bytes, bytes_eq, codes, same}
use midgard.Base.Int.{pos, ◌≤ℤ◌}
use midgard.Base.Maps.{lookup, insert}
use midgard.Db.Rows.{Row}
use midgard.Record.ChainInfo.{new_chain_info, current_pool_status}
use midgard.Record.Totals.{RunningTotals, new_running_totals, depth, current_depths}
use midgard.Timeseries.DepthRecorder.{
  Settings, is_tor_anchor, changed_row, depth_row, price_row, rune_price, update, pool_names,
  diff_at_key,
}
use midgard.Timeseries.DepthRecorder.Anchors.{
  is_candidate, open_chain, is_tor_anchor_lem, update-lost_error, rune_price_no_anchor,
}
use midgard.Timeseries.DepthRecorder.Table.{Enumerates, Mirrors, update-Mirrors}
use midgard.Timeseries.Latest.{
  pool_info, set_latest_states, both_known, pool_info-set_latest_states,
}
use midgard.Timeseries.Median.{Floats}
use midgard.Util.Asset.{asset_from_string}

-- Numbers in the place of floats.
abbrev naturals : Floats
naturals = record { less = ltb; midpoint = λ a b. a; ratio = λ a b. elim a [ pos n ↦ n | _ ↦ 0 ] }

abbrev usd : Bytes
usd = codes "ETH.USDC"

abbrev settings : Settings (List Row)
settings = record {
  insert_row = λ row rows. (none, rows ++ row ∷ []);
  root_chain = codes "thorchain";
  usd_pools = usd ∷ [];
  floats = naturals;
}

abbrev two_sided : RunningTotals
two_sided = record {
  asset_e8_depth_per_pool = (usd, pos 300) ∷ [];
  rune_e8_depth_per_pool = (usd, pos 100) ∷ [];
  synth_e8_depth_per_pool = [];
}

only_usd : Enumerates (usd ∷ []) two_sided new_running_totals
unfolding pool_names lookup insert same
only_usd q = elim (Bool-cases (same usd q)) [ inl e ↦ rw e | inr e ↦ rw e ]

nothing_yet : Mirrors [] new_running_totals
unfolding current_depths depth lookup
nothing_yet q = refl

update-Mirrors_example :
    (let (err, saved, rows') =
        update settings new_chain_info (usd ∷ []) (pos 7) two_sided (pos 5) new_running_totals [] in
      (err ≡ none) × (saved ≡ two_sided) × Mirrors rows' two_sided)
update-Mirrors_example =
    update-Mirrors settings new_chain_info (usd ∷ []) (pos 7) (pos 5) two_sided new_running_totals
      [] (λ row rows. refl) only_usd nothing_yet

is_tor_anchor_lem_example :
    is_tor_anchor (codes "thorchain") (usd ∷ []) new_chain_info usd (pos 5)
    ≡ not ((asset_from_string usd).synth || (asset_from_string usd).chain == codes "THOR")
      && is_candidate (codes "thorchain") (usd ∷ []) new_chain_info usd (pos 5)
      && (current_pool_status new_chain_info usd == codes "available")
      && open_chain new_chain_info usd (asset_from_string usd).chain
is_tor_anchor_lem_example =
    is_tor_anchor_lem (codes "thorchain") (usd ∷ []) new_chain_info usd (pos 5)

abbrev half_failing : Settings (List Row)
half_failing = record settings {
  insert_row = λ row rows.
      if codes row.table == codes "rune_price"
      then (none, rows ++ row ∷ [])
      else (some (codes "closed"), rows);
}

usd_is_new :
    changed_row new_running_totals two_sided (pos 7) usd
    ≡ some (depth_row usd (pos 300) (pos 100) (pos 0) (pos 7))
unfolding changed_row diff_at_key lookup same
usd_is_new = refl

depths_refused :
    (row : Row)
    → row.table ≡ "block_pool_depths"
    → (err : Bytes) × (half_failing.insert_row row [] ≡ (some err, []))
unfolding same
depths_refused row e = (codes "closed", rw e refl)

not_negative : (q : Bytes) → pos 0 ≤ℤ depth two_sided.asset_e8_depth_per_pool q
unfolding depth lookup same
not_negative q = elim (Bool-cases (same usd q)) [
  | inl e ↦ rw e (omega arith)
  | inr e ↦ rw e (omega arith)
]

rune_price_no_anchor_example : rune_price naturals two_sided (usd ∷ []) [] ≡ 0
rune_price_no_anchor_example = rune_price_no_anchor naturals two_sided (usd ∷ []) not_negative

update-lost_error_example :
    (price : ℕ) × (update half_failing new_chain_info
        (usd ∷ [])
        (pos 7)
        two_sided
        (pos 5)
        new_running_totals
        []
      ≡ (let (e, store') = half_failing.insert_row (price_row price (pos 7)) [] in
          (e, two_sided, store')))
update-lost_error_example =
    update-lost_error half_failing new_chain_info (pos 7) (pos 5) two_sided new_running_totals []
      depths_refused (usd ∷ [])

pool_info-set_latest_states_example :
    pool_info (set_latest_states (pos 5) (pos 7) two_sided) usd
    ≡ both_known
        (lookup usd two_sided.asset_e8_depth_per_pool)
        (lookup usd two_sided.rune_e8_depth_per_pool)
        (depth two_sided.synth_e8_depth_per_pool usd)
pool_info-set_latest_states_example = pool_info-set_latest_states two_sided usd (pos 5) (pos 7)
