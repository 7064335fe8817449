-- ===== src/Util/Asset.antt =====
-- internal/util/util.go: `AssetFromString`.
use midgard.Base.{◌≡◌, refl, Bool, true, false, Option, none, some, if◌then◌else◌}
use midgard.Base.Bytes.{Bytes, codes, contains, split2, to_upper}

pub record Asset : Type 0 where
  pub chain : Bytes
  pub ticker : Bytes
  pub symbol : Bytes
  pub synth : Bool
  pub trade : Bool

-- From the parts of `SplitN`: with one part only, the asset is of the chain THOR.
abbrev asset_of_parts : Bool → Bool → Bytes × Option Bytes → Asset
asset_of_parts synth trade (sym, none) = record {
  chain = codes "THOR";
  ticker = to_upper (split2 b'-' sym).0;
  symbol = to_upper sym;
  synth = synth;
  trade = trade;
}
asset_of_parts synth trade (chain, some sym) = record {
  chain = to_upper chain;
  ticker = to_upper (split2 b'-' sym).0;
  symbol = to_upper sym;
  synth = synth;
  trade = trade;
}

unfoldable pub asset_from_string : Bytes → Asset
asset_from_string s =
    if contains b'/' s
    then asset_of_parts true false (split2 b'/' s)
    else if contains b'~' s
    then asset_of_parts false true (split2 b'~' s)
    else asset_of_parts false false (split2 b'.' s)

asset_of_parts-synth :
    (synth trade : Bool) (parts : Bytes × Option Bytes)
    → (asset_of_parts synth trade parts).synth ≡ synth
asset_of_parts-synth synth trade (sym, none) = refl
asset_of_parts-synth synth trade (chain, some sym) = refl

pick-synth :
    (slash tilde : Bool) (a b c : Asset)
    → a.synth ≡ true
    → b.synth ≡ false
    → c.synth ≡ false
    → (if slash then a else if tilde then b else c).synth ≡ slash
pick-synth true tilde a b c h k l = h
pick-synth false true a b c h k l = k
pick-synth false false a b c h k l = l

-- An asset is a synth exactly if its name has the separator of synths.
pub asset_from_string-synth : (s : Bytes) → (asset_from_string s).synth ≡ contains b'/' s
unfolding asset_from_string
asset_from_string-synth s =
    pick-synth (contains b'/' s) (contains b'~' s) _ _ _ (asset_of_parts-synth true false _)
      (asset_of_parts-synth false true _) (asset_of_parts-synth false false _)
