-- ===== src/Record/Corrections/Tables/Units.antt =====
-- internal/fetch/record/correctwithdrawimploss.go: the tables of withdrawals whose units were wrong.
use Prim.Native.String.{String}
use midgard.Base.{List, [], ◌∷◌}
use midgard.Base.Bytes.{Bytes, codes}
use midgard.Base.Int.{ℤ, pos}
use midgard.Base.Maps.{Map}
use midgard.Record.Corrections.{ArtificialUnitChange}

pub record WithdrawUnitCorrection : Type 0 where
  pub tx : Bytes
  pub actual_units : ℤ

abbrev units : String → ℤ → WithdrawUnitCorrection
units tx actual_units = record { tx = codes tx; actual_units = actual_units }

abbrev pub withdraw_unit_corrections_mainnet_202104 : Map ℤ WithdrawUnitCorrection
withdraw_unit_corrections_mainnet_202104 =
    (
      pos 47832,
      units "4338F014E1FAC05C2248ECE0A36061D92CC76ADF13CCA773272AD70E00B56154" (pos 9066450465),
    )
    ∷ (
      pos 79082,
      units "A1B155BD4F57DDF91200733EE2552C9E0E828E632F0D91EF69BCAF3D74D8D512" (pos 169807962),
    )
    ∷ (
      pos 81055,
      units "7613CEC05CA9B3A4BEF864F22E51EA29EB377EF4EC00885F91377F6D74D1DA4D" (pos 2267292958),
    )
    ∷ (
      pos 81462,
      units "5E02AE1FE7A777BC6CBE8F4FC2DAFC9F8A6464BAAC58697202EAE1A2271D91D2" (pos 8002689544),
    )
    ∷ (
      pos 84221,
      units "8885C9AC8A26002DA29090D6173D6A1C340AC6BD96837146BDA4ED059EF0760F" (pos 288123877),
    )
    ∷ (
      pos 85406,
      units "E6907237BFFDFD5F733E5B422D4BC3106A8BCF933A7547843E458580C625D5D5" (pos 609672362),
    )
    ∷ (
      pos 88797,
      units "F552E27BC9774E546CA4024B8274C758FC6433F3A38B0DB16137196F55E58C73" (pos 2208373135),
    )
    ∷ (
      pos 89415,
      units "2E48177404B36CE893240A5B0CFF3FA501CE914BBA1F7D3FFEFC75D44110ADCF" (pos 767266632),
    )
    ∷ (
      pos 90002,
      units "4D41DA864AE89E8B4CC315360F145E33501B2C1534A5757C1104606C967AB54F" (pos 19621520713),
    )
    ∷ (
      pos 100196,
      units "C94BD47100E0C9983845735A3FA0C6C511713CB4486CBB3777F8DA386011A0C0" (pos 8280457915),
    )
    ∷ (
      pos 105465,
      units "E86DCD9FDD898A3F7781D049EE0442DCC69ACBC2FBB110125A501AF7CF3003D7" (pos 911047010),
    )
    ∷ (
      pos 109333,
      units "C1BD2175944D490D56755B37D1EB88385F9BF7A34EF609418A332526859C6EE2" (pos 406716426),
    )
    ∷ (
      pos 110069,
      units "8D5BBF31ABCB8297AB2804186D6AAA1B479E79B1CB0A0C1B2586F0F89225C28B" (pos 13600885317),
    )
    ∷ (
      pos 112985,
      units "DAC7FCA92A9B42B82BFBE9C03C756A1AFBEF178CF8D2F6F2E044407A6696D581" (pos 117224625),
    )
    ∷ (
      pos 128842,
      units "34B820F7158C3AB690C2DCF088356D1A70E6721551C2159C96729CE9FA97B698" (pos 93675000000),
    )
    ∷ (
      pos 128845,
      units "0754C907993E389BA7947CB775D456BB829E12B3D7EEB676413E749BB847068B" (pos 146382616748),
    )
    ∷ (
      pos 131366,
      units "8EEB3FBAA095F46E12207257C3CB0771BDB55C3EB2322F86FD75594ECC015AD1" (pos 45078869167),
    )
    ∷ (
      pos 138590,
      units "7058BA9B3FF1173D620773458F84C5EA247EBB38C74C505E1FB8069CDB8A6E27" (pos 14950765467),
    )
    ∷ (
      pos 147789,
      units "8CDA8459400D97CC436F1D19B6E42A4CEDDD21F2A231D1F9D4438B43A7750136" (pos 4873515514),
    )
    ∷ (
      pos 147798,
      units "EAF6064BD7CB29389917BF4FF0D499D8E99890D9B561D8FF63F610092FADA4A3" (pos 814479987),
    )
    ∷ (
      pos 151691,
      units "6A7A7C3A7A65F4704151DB1972EAFA6A237B03BA82D46721E761F3063753C42C" (pos 345151887),
    )
    ∷ (
      pos 153980,
      units "85A19DA310282D35A6C51F4C34F921D27F2DF090535790F0C533FE61EA980CD7" (pos 1115323168),
    )
    ∷ (
      pos 163137,
      units "0BA388B1BCF76C04B81D885ECB99E0E98A295778234FF9A88E9CA8ED69706DF4" (pos 3086810573),
    )
    ∷ (
      pos 166532,
      units "156CCFBC66F775C7FDF9D3E18F071C6CEC2ADFAB4F7F435094AA516ECD1C698A" (pos 8288025767),
    )
    ∷ (
      pos 257485,
      units "E6B6FBC73BFD62BC36F0E236BC065FCC18D328832908C240399E2DF2E2CB6565" (pos 9702125229),
    )
    ∷ (
      pos 260113,
      units "A6788765BCFBEC33F0F4585CB736105D4005AB81FEC30113231CF1D41F843AEA" (pos 272714488439),
    )
    ∷ (
      pos 260114,
      units "1296D15627331C78CA5BC7CEE014C98273C5B08D358FA451C8039B42EAD61054" (pos 128877756350),
    )
    ∷ (
      pos 260115,
      units "F6B4EDB5555CC4FAF513729D16F2D906DEC5C950DC95530F26ABFDC7ECD5DBCE" (pos 75139724801),
    )
    ∷ (
      pos 260116,
      units "86679B5EE155F2997251108713C96AE0AC91444BFD0883A99D0611A255F0F2D7" (pos 41517402427),
    )
    ∷ (
      pos 260119,
      units "04B6F0AEDFA9ABD9DD949541C2B7762DC2EA62026ACB39C8992482355318FB8C" (pos 29065838793),
    )
    ∷ (
      pos 265159,
      units "2BABF243911BA2CFF2551143131985515C4873C9D6C87E44027E0F7F14E29792" (pos 18962634918),
    )
    ∷ (
      pos 269611,
      units "CCE905915CEC65FD6FDC48E31E43E65FCD73ABDCF90A4419EFDFE7E43B63DDD0" (pos 156734300),
    )
    ∷ (
      pos 271635,
      units "02BA91CF8F6FF3E35A1C7F0F1991BB2A2E200B78B3CF7A77DAF77E66067B205F" (pos 83041261241),
    )
    ∷ (
      pos 271741,
      units "4B95FDF07545DF8BDD9B05982F013166E0BAB8B54F419548DEB0D3EE2E5F454E" (pos 1539766365),
    )
    ∷ (
      pos 277262,
      units "E0E67CF364BFDD9B312C1899C60582F720A44F1A8023333F7849E0AAD0B9E4DB" (pos 9402258),
    )
    ∷ (
      pos 292069,
      units "70558EA306ADA6C6705A4C15AA60BB06D9000F75F9C2FA85153027F0AC131357" (pos 10046673124),
    )
    ∷ []

abbrev pub add_instead_withdraw_map_mainnet_202104 : Map ℤ (List ArtificialUnitChange)
add_instead_withdraw_map_mainnet_202104 =
    (
      pos 84876,
      record {
        pool = codes "BTC.BTC";
        addr = codes "thor1h7n7lakey4tah37226musffwjhhk558kaay6ur";
        units = pos 2029187601;
      }
          ∷ [],
    )
    ∷ (
      pos 170826,
      record {
        pool = codes "BNB.BNB";
        addr = codes "thor1t5t5xg7muu3fl2lv6j9ck6hgy0970r08pvx0rz";
        units = pos 31262905;
      }
          ∷ [],
    )
    ∷ (
      pos 2677311,
      record {
        pool = codes "LTC.LTC";
        addr = codes "thor19jhhfjvnauryeq3r56e0llvndrz8xxcwgjlhzz";
        units = pos 8033289;
      }
          ∷ [],
    )
    ∷ []
