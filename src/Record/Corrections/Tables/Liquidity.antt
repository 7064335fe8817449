-- ===== src/Record/Corrections/Tables/Liquidity.antt =====
-- internal/fetch/record/correctmainnet.go: the tables of corrections of liquidity providers.
use Prim.Native.String.{String}
use midgard.Base.{List, [], ◌∷◌}
use midgard.Base.Bytes.{Bytes, codes}
use midgard.Base.Int.{ℤ, pos}
use midgard.Base.Maps.{Map}

pub record AdditionalWithdraw : Type 0 where
  pub pool : Bytes
  pub from_addr : Bytes
  pub reason : Bytes
  pub rune_e8 : ℤ
  pub asset_e8 : ℤ
  pub units : ℤ

pub record MissingAdd : Type 0 where
  pub additional_rune : ℤ
  pub additional_units : ℤ

-- The fields that are set of a withdrawal whose pool was removed.
pub record RemovedLiquidity : Type 0 where
  pub from_addr : Bytes
  pub stake_units : ℤ

abbrev added : ℤ → ℤ → MissingAdd
added rune units = record { additional_rune = rune; additional_units = units }

abbrev removed : String → ℤ → RemovedLiquidity
removed from_addr units = record { from_addr = codes from_addr; stake_units = units }

abbrev pub missing_withdraws : List (ℤ × AdditionalWithdraw)
missing_withdraws =
    (
      pos 63519,
      record {
        pool = codes "BNB.BNB";
        from_addr = codes "thor1tl9k7fjvye4hkvwdnl363g3f2xlpwwh7k7msaw";
        reason = codes "bug 1643 corrections fix for asymmetric rune withdraw problem";
        rune_e8 = pos 1999997;
        asset_e8 = pos 0;
        units = pos 1029728;
      },
    )
    ∷ (
      pos 2360486,
      record {
        pool = codes "BCH.BCH";
        from_addr = codes "thor1nlkdr8wqaq0wtnatckj3fhem2hyzx65af8n3p7";
        reason = codes "midgard correction missing withdraw";
        rune_e8 = pos 1934186;
        asset_e8 = pos 29260;
        units = pos 1424947;
      },
    )
    ∷ (
      pos 2501774,
      record {
        pool = codes "BNB.BUSD-BD1";
        from_addr = codes "thor1prlky34zkpr235lelpan8kj8yz30nawn2cuf8v";
        reason = codes "midgard correction missing withdraw";
        rune_e8 = pos 1481876;
        asset_e8 = pos 10299098;
        units = pos 962674;
      },
    )
    ∷ (
      pos 2606240,
      record {
        pool = codes "BNB.FTM-A64";
        from_addr = codes "thor14sz7ca8kwhxmzslds923ucef22pm0dh28hhfve";
        reason = codes "midgard correction suspended pool withdraws missing";
        rune_e8 = pos 0;
        asset_e8 = pos 0;
        units = pos 768586678;
      },
    )
    ∷ (
      pos 2606240,
      record {
        pool = codes "BNB.FTM-A64";
        from_addr = codes "thor1jhuy9ft2rgr4whvdks36sjxee5sxfyhratz453";
        reason = codes "midgard correction suspended pool withdraws missing";
        rune_e8 = pos 0;
        asset_e8 = pos 0;
        units = pos 110698993;
      },
    )
    ∷ (
      pos 2606240,
      record {
        pool = codes "BNB.FTM-A64";
        from_addr = codes "thor19wcfdx2yk8wjze7l0cneynjvjyquprjwj063vh";
        reason = codes "midgard correction suspended pool withdraws missing";
        rune_e8 = pos 0;
        asset_e8 = pos 0;
        units = pos 974165115;
      },
    )
    ∷ (
      pos 1166400,
      record {
        pool = codes "ETH.WBTC-0X2260FAC5E5542A773AA44FBCFEDF7C193BC2C599";
        from_addr = codes "thor1g6pnmnyeg48yc3lg796plt0uw50qpp7hgz477u";
        reason = codes "midgard correction suspended pool withdraws missing";
        rune_e8 = pos 0;
        asset_e8 = pos 0;
        units = pos 2228000000;
      },
    )
    ∷ (
      pos 7732800,
      record {
        pool = codes "AVAX.USDT-0X9702230A8EA53601F5CD2DC00FDBC13D4DF4A8C7";
        from_addr = codes "thor178wlyhtpvth7f7zmrusfcqurvysxv9jngalunk";
        reason = codes "midgard correction suspended pool withdraws missing";
        rune_e8 = pos 0;
        asset_e8 = pos 0;
        units = pos 26915692974;
      },
    )
    ∷ (
      pos 7732800,
      record {
        pool = codes "AVAX.USDT-0X9702230A8EA53601F5CD2DC00FDBC13D4DF4A8C7";
        from_addr = codes "thor1wztmenpsv5wn80ev6zzsmu5647gdrc0srgdfsz";
        reason = codes "midgard correction suspended pool withdraws missing";
        rune_e8 = pos 0;
        asset_e8 = pos 0;
        units = pos 21246444516;
      },
    )
    ∷ (
      pos 5356800,
      record {
        pool = codes "ETH.GUSD-0X056FD409E1D7A124BD7017459DFEA2F387B6D5CD";
        from_addr = codes "thor1ws0sltg9ayyxp2777xykkqakwv2hll5ywuwkzl";
        reason = codes "midgard correction suspended pool withdraws missing";
        rune_e8 = pos 0;
        asset_e8 = pos 0;
        units = pos 491759129;
      },
    )
    ∷ []

abbrev pub removed_liquidity : List RemovedLiquidity
removed_liquidity =
    removed "0x8ea72dffeb4c752d67d6590673b1c2c3ff7afe33" (pos 2530873057)
    ∷ removed "0x9fd89ff191c9b4c4e25e0b3e3e16783514e480eb" (pos 346609448)
    ∷ removed "thor123hnhqjlfjny7rzj8fxzgdlkmxjvup279dpkq0" (pos 291454169)
    ∷ removed "thor125ynwnann7969mjhynqcp5je834kunz4cx0rq7" (pos 3375794)
    ∷ removed "thor12qjtp8c5hhl9e5rl04ynfvlwfp2xucsqhdw92s" (pos 23494480)
    ∷ removed "thor13f2zmmjkflfyeghupyegf3z44e95s8nfg479jd" (pos 1868006)
    ∷ removed "thor15sj246ny895psa3wymlt7am7slcr8n94t3em89" (pos 12069444899)
    ∷ removed "thor16fyjsvr4p08rzpkaxk6r5d20mst5ln7mthq4yt" (pos 346542576)
    ∷ removed "thor16jg26p48ue58kjxsu5l5w0gx6qdlaxhxsnrjzu" (pos 465518306)
    ∷ removed "thor178wlyhtpvth7f7zmrusfcqurvysxv9jngalunk" (pos 32844877)
    ∷ removed "thor18ealt7vp5w362mqsjgjwdm7dxgu0032vs4xlc0" (pos 3372615)
    ∷ removed "thor18l7mjv9lv3j3q4f3gh3fffyms8cpvjquvywcnc" (pos 18682220)
    ∷ removed "thor19dq0hcxmau6tp6fgkl30vf2snkntv2jpq0skfp" (pos 16997920483)
    ∷ removed "thor19kuxhqy870ysu5ej65rw4ezu8cejjj6p88tpar" (pos 328354924)
    ∷ removed "thor19ytzkff7a3qy7nmnkx5a82urehuuxr3sjwrgmw" (pos 6982566186)
    ∷ removed "thor1amxc5dg4eetej7pg4nkzw60cpr6t4809xf8tnv" (pos 33125146)
    ∷ removed "thor1axsyxqkfxzaf86kkxmy0ltjdsjneqkun5lkjpx" (pos 337576)
    ∷ removed "thor1c7a5lqssq7esh8tp3jmezaavvax5pmg65eevt5" (pos 854431703)
    ∷ removed "thor1ezr4ky0ve2fzqr9s4estpg9zq9g2dk9q5thzhu" (pos 1255928536)
    ∷ removed "thor1fn46pkfs7tcme664492m4z5jwf8cmyp4anlnfe" (pos 3732928)
    ∷ removed "thor1fq2fhrk84hxyme2ta35ne6v35u7zh4k0wqsx06" (pos 299940491)
    ∷ removed "thor1fs5f4adte00m78j7g6ztkjvln9p8p5heymd2wz" (pos 74670193)
    ∷ removed "thor1gjsuaqca7u64u2zx5wwded53j94k5yyrmfnz2w" (pos 3416668)
    ∷ removed "thor1gp7dufplc92sxdlxfsmj6fx8uvya7mydcrdag9" (pos 40241)
    ∷ removed "thor1hfvq8s40e5s83055jagmzrnhp3ugda64wwtya6" (pos 35601008)
    ∷ removed "thor1hjfu0jhkutq942ucs7nzvfrfa30kwtxxcy7yvf" (pos 383673)
    ∷ removed "thor1jf074m34qjaxpkh4mev2uaz6x249npfvpwwwtk" (pos 696625)
    ∷ removed "thor1jmawmz2hvgdzmhsuh8phyktwhwrz5u9v4h63ce" (pos 186818)
    ∷ removed "thor1kd9h7m9l2h8wf2js72caqzq4978p2mcsnvta2s" (pos 100539730)
    ∷ removed "thor1knsxcjtz3raqyzxk5z87senlwx53v9hkncjrv4" (pos 411925945)
    ∷ removed "thor1l5vlnutqvh2zv3uruy6kk0s6dunz0xj6z048pa" (pos 331272269)
    ∷ removed "thor1lghm6wmqtrz5mzupm9c5lk4xtr2xv3835rf935" (pos 8292276)
    ∷ removed "thor1m07uxkdpgxyt7um0g36z62z02ehzjfgzvpeewp" (pos 2993590)
    ∷ removed "thor1m490synp6glkq4skext84x6xfqgg3j69l0ngpp" (pos 32050412)
    ∷ removed "thor1mtch7p7ctmhz0fatg38zz64rlvu95c5vhsrm3f" (pos 4021806)
    ∷ removed "thor1n00szt2yqrne3dmlpqd04swhmmrujh7hqp9a4v" (pos 8043290)
    ∷ removed "thor1n244qlmax8kkpjre7wrluy3kxx3frnzl37m95n" (pos 98542193)
    ∷ removed "thor1n9s7t8hscr7j8g5kzacscdream72kx2u4w3dlc" (pos 3286235)
    ∷ removed "thor1pavmt8hlv6v7r70y8dugqfyd98hf39h94ty25j" (pos 7112626)
    ∷ removed "thor1r0aw24dwea2373h2mfrx3ut04s2jqnvj67p3jp" (pos 1871484)
    ∷ removed "thor1rdttlqjj3a8puat9h4xqvc7jxewaa5yf4x5tdq" (pos 3736128)
    ∷ removed "thor1tgs7xd2xq57vwhgzzv7qv9d68plpn0hxw7ufxa" (pos 37782627)
    ∷ removed "thor1ukag0a5l0p4gqdmmzq3lw0cycuks73nddaurpx" (pos 116437252)
    ∷ removed "thor1ve0z79dtukzun96shykyr7z8zdufzezkqzhzqd" (pos 37784440)
    ∷ removed "thor1vjm299wprqwz5m0kp5dnaph573u4glk2x3dx3y" (pos 2939544248)
    ∷ removed "thor1vqd6djdqn4hlrquxuwz2na3mac8qm8qgwfu7ps" (pos 66276710)
    ∷ removed "thor1wmme5j3jd4jtldxcvq2mrgcrc5mtctj606fjnm" (pos 15084927)
    ∷ removed "thor1wp8s062268tv3fvxxl8tgy62aq0rk203pylh5z" (pos 3154314583)
    ∷ removed "thor1ws0sltg9ayyxp2777xykkqakwv2hll5ywuwkzl" (pos 31875829)
    ∷ removed "thor1wtttw6j3xvxm85j80m3qv3zhz70wem0a6xkh37" (pos 1657489)
    ∷ removed "thor1x64thscxsl39pun3lqzwhge890tvhvgd3dxc7q" (pos 46107090)
    ∷ removed "thor1y45hs4jaufkckmz4kj6gu30h7c9s7v4t2unwn2" (pos 63077766)
    ∷ removed "thor1yv36jpsn2qvds7vg74g0fpyfu6d5np2hhdp627" (pos 65694437)
    ∷ removed "thor1zw4n0zgf7v75l9t6hfyw0fgz9tn84vfu9jz77h" (pos 33015622)
    ∷ []

abbrev pub missing_adds : Map ℤ MissingAdd
missing_adds =
    (pos 672275, added (pos 2546508574) (pos 967149543))
    ∷ (pos 674411, added (pos 1831250392) (pos 704075160))
    ∷ (pos 676855, added (pos 1699886243) (pos 638080440))
    ∷ (pos 681060, added (pos 1101855537) (pos 435543069))
    ∷ (pos 681061, added (pos 1146177337) (pos 453014832))
    ∷ (pos 681063, added (pos 271977087) (pos 106952192))
    ∷ (pos 681810, added (pos 3830671893) (pos 1518717776))
    ∷ (pos 681815, added (pos 2749916233) (pos 1090492640))
    ∷ (pos 681819, added (pos 540182490) (pos 213215502))
    ∷ (pos 682026, added (pos 1108123249) (pos 443864231))
    ∷ (pos 682028, added (pos 394564637) (pos 158052776))
    ∷ (pos 682031, added (pos 1043031822) (pos 417766496))
    ∷ (pos 682128, added (pos 3453026237) (pos 1384445390))
    ∷ []
