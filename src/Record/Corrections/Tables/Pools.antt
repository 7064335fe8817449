-- ===== src/Record/Corrections/Tables/Pools.antt =====
-- internal/fetch/record/correctmainnet.go: the tables of corrections of pools and their synths.
use Prim.Native.String.{String}
use midgard.Base.{List, [], ◌∷◌, some}
use midgard.Base.Bytes.{codes}
use midgard.Base.Int.{ℤ, pos, negsuc}
use midgard.Base.Maps.{Map}
use midgard.Record.Corrections.{ArtificialPoolBallanceChange}
use midgard.Record.Events.{Burn, Coinbase}

abbrev change : String → ℤ → ℤ → ArtificialPoolBallanceChange
change pool rune asset = record { pool = codes pool; rune = rune; asset = asset }

abbrev burned : String → ℤ → String → Burn
burned asset e8 burner = record {
  asset = some (codes asset);
  asset_e8 = e8;
  burner = some (codes burner);
}

abbrev pub mainnet_artificial_depth_changes : Map ℤ (List ArtificialPoolBallanceChange)
mainnet_artificial_depth_changes =
    (pos 1043090, change "BCH.BCH" (negsuc 0) (pos 0) ∷ [])
    ∷ (
      pos 1483166,
      change "ETH.YFI-0X0BC529C00C6401AEF6D220BE8C6EA1667F6AD93E" (negsuc 18571915693441)
            (pos 555358575)
          ∷ change "ETH.ETH" (pos 42277574737435) (negsuc 725548423674)
          ∷ change "ETH.SUSHI-0X6B3595068778DD592E39A122F4F5A5CF09C90FE2" (negsuc 19092838139425)
              (pos 3571961904132)
          ∷ change "ETH.HEGIC-0X584BC13C7D411C00C01A62E8019472DE68768430" (negsuc 69694964522)
              (pos 2098087620642)
          ∷ change "ETH.AAVE-0X7FC66500C84A76AD7E9C93437BFC5AC33E2DDAE9" (negsuc 2474742542085)
              (pos 20912604795)
          ∷ change "ETH.DODO-0X43DFC4159D86F3A37A5A4B3D4580B888AD7D4DDD" (negsuc 38524681037)
              (pos 83806675976)
          ∷ change "ETH.KYL-0X67B6D479C7BB412C54E03DCA8E1BC6740CE6B99C" (negsuc 2029858716919)
              (pos 35103388382444)
          ∷ [],
    )
    ∷ (
      pos 2597851,
      change "ETH.ALCX-0XDBDB4D16EDA451D0503B854CF79D55697F90C8DF" (pos 0) (negsuc 96688561784)
          ∷ change "ETH.SUSHI-0X6B3595068778DD592E39A122F4F5A5CF09C90FE2" (pos 0)
              (negsuc 5159511094094)
          ∷ change "ETH.USDT-0XDAC17F958D2EE523A2206206994597C13D831EC7" (pos 0)
              (negsuc 99023689717399)
          ∷ change "ETH.XRUNE-0X69FA0FEE221AD11012BAB0FDB45D444D3D2CE71C" (pos 0)
              (negsuc 2081880169421609)
          ∷ change "ETH.YFI-0X0BC529C00C6401AEF6D220BE8C6EA1667F6AD93E" (pos 0) (negsuc 727860648)
          ∷ [],
    )
    ∷ (
      pos 6186308,
      change "ETH.USDC-0XA0B86991C6218B36C1D19D4A2E9EB0CE3606EB48" (pos 0) (negsuc 2673665999999)
          ∷ [],
    )
    ∷ (pos 12896803, change "BSC.BNB" (pos 0) (pos 1) ∷ [])
    ∷ (pos 13610280, change "ETH.ETH" (pos 0) (pos 1) ∷ [])
    ∷ []

abbrev pub burned_synths : List Burn
burned_synths =
    burned "AVAX/AVAX" (pos 1000001) "thor1v8ppstuf6e3x0r4glqc68d5jqcs2tf38cg2q6y"
    ∷ burned "AVAX/USDC-0XB97EF9EF8734C71904D8002F8B6BC66DD9C48A6E" (pos 4581)
        "thor1v8ppstuf6e3x0r4glqc68d5jqcs2tf38cg2q6y"
    ∷ burned "BNB/BNB" (pos 99999) "thor1v8ppstuf6e3x0r4glqc68d5jqcs2tf38cg2q6y"
    ∷ burned "DOGE/DOGE" (pos 4400752724) "thor1v8ppstuf6e3x0r4glqc68d5jqcs2tf38cg2q6y"
    ∷ burned "ETH/ETH" (pos 4455527) "thor1v8ppstuf6e3x0r4glqc68d5jqcs2tf38cg2q6y"
    ∷ burned "ETH/FOX-0XC770EEFAD204B5180DF6A14EE197D99D808EE52D" (pos 215666666666)
        "thor1v8ppstuf6e3x0r4glqc68d5jqcs2tf38cg2q6y"
    ∷ burned "ETH/USDC-0XA0B86991C6218B36C1D19D4A2E9EB0CE3606EB48" (pos 21884753549)
        "thor1v8ppstuf6e3x0r4glqc68d5jqcs2tf38cg2q6y"
    ∷ burned "ETH/USDT-0XDAC17F958D2EE523A2206206994597C13D831EC7" (pos 281542)
        "thor1v8ppstuf6e3x0r4glqc68d5jqcs2tf38cg2q6y"
    ∷ burned "GAIA/ATOM" (pos 1039626) "thor1v8ppstuf6e3x0r4glqc68d5jqcs2tf38cg2q6y"
    ∷ burned "TERRA/LUNA" (pos 2527) "thor1v8ppstuf6e3x0r4glqc68d5jqcs2tf38cg2q6y"
    ∷ burned "TERRA/UST" (pos 29955102645) "thor1v8ppstuf6e3x0r4glqc68d5jqcs2tf38cg2q6y"
    ∷ burned "BCH/BCH" (pos 20529) "thor1v8ppstuf6e3x0r4glqc68d5jqcs2tf38cg2q6y"
    ∷ burned "BTC/BTC" (pos 942067) "thor1v8ppstuf6e3x0r4glqc68d5jqcs2tf38cg2q6y"
    ∷ []

abbrev pub mint_synths : List Coinbase
mint_synths =
    record {
      asset = some (codes "ETH/USDT-0XDAC17F958D2EE523A2206206994597C13D831EC7");
      asset_e8 = pos 173198253248;
      receiver = some (codes "thor1v8ppstuf6e3x0r4glqc68d5jqcs2tf38cg2q6y");
    }
    ∷ []
