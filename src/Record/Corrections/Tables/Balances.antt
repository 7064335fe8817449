-- ===== src/Record/Corrections/Tables/Balances.antt =====
-- internal/fetch/record/correctmainnet.go: the transfers that correct the balances of accounts.
use Prim.Native.String.{String}
use midgard.Base.{List, [], ◌∷◌}
use midgard.Base.Bytes.{Bytes, codes}
use midgard.Base.Int.{ℤ, pos}
use midgard.Base.Maps.{Map}

pub record Correction : Type 0 where
  pub asset : Bytes
  pub from_addr : Bytes
  pub to_addr : Bytes
  pub amount_e8 : ℤ

abbrev midgard_balance_correction_address : Bytes
midgard_balance_correction_address = codes "MidgardBalanceCorrectionAddress"

abbrev correction : String → Bytes → Bytes → ℤ → Correction
correction asset from_addr to_addr amount_e8 = record {
  asset = codes asset;
  from_addr = from_addr;
  to_addr = to_addr;
  amount_e8 = amount_e8;
}

abbrev pub height_corrections : Map ℤ (List Correction)
height_corrections =
    (
      pos 1,
      correction "THOR.RUNE" (midgard_balance_correction_address)
            (codes "thor1xfqaqhk5r6x9hdwlvmye0w9agv8ynljacmxulf") (pos 100000000)
          ∷ [],
    )
    ∷ (
      pos 4786560,
      correction "THOR.MIMIR" (codes "MidgardBalanceCorrectionAddress")
            (codes "thor19pkncem64gajdwrd5kasspyj0t75hhkpqjn5qh") (pos 100000000000)
          ∷ correction "THOR.MIMIR" (codes "MidgardBalanceCorrectionAddress")
              (codes "thor1xghvhe4p50aqh5zq2t2vls938as0dkr2mzgpgh") (pos 100000000000)
          ∷ correction "THOR.RUNE" (codes "MidgardBalanceCorrectionAddress")
              (codes "thor17xpfvakm2amg962yls6f84z3kell8c5lk76m7z") (pos 857361851)
          ∷ correction "THOR.RUNE" (codes "thor106r2jdgpdjhkv0k9apr75k35snx72ymexzesc9")
              (codes "MidgardBalanceCorrectionAddress") (pos 4000000)
          ∷ correction "THOR.RUNE" (codes "thor10jr5p2ldd3whppnukeun8rqksfpktjpwkkhhfp")
              (codes "MidgardBalanceCorrectionAddress") (pos 28000000)
          ∷ correction "THOR.RUNE" (codes "thor10k9ncyq9qsqlwcdchh4628dncx77g82xknarju")
              (codes "MidgardBalanceCorrectionAddress") (pos 4000000)
          ∷ correction "THOR.RUNE" (codes "thor10ne044874nkdx49xp2n8wjlr4qmmjynmll9pwg")
              (codes "MidgardBalanceCorrectionAddress") (pos 26000000)
          ∷ correction "THOR.RUNE" (codes "thor12882tsn8psfqkcr7yg9apr598eec2z6ejklheh")
              (codes "MidgardBalanceCorrectionAddress") (pos 2000000)
          ∷ correction "THOR.RUNE" (codes "thor12zq08wljyqs0mculuhcv0cnzqww72rz4t8dmkk")
              (codes "MidgardBalanceCorrectionAddress") (pos 20000000)
          ∷ correction "THOR.RUNE" (codes "thor1303cvleev5v5r36xc3w785rmnpfkaq9vqfqvmp")
              (codes "MidgardBalanceCorrectionAddress") (pos 2000000)
          ∷ correction "THOR.RUNE" (codes "thor139m38gmajx8k9njzpqwtpg8m5q666mru67jn64")
              (codes "MidgardBalanceCorrectionAddress") (pos 2000000)
          ∷ correction "THOR.RUNE" (codes "thor13lat663qx8xuhc0yksgfcgaguud8l5v9q6476s")
              (codes "MidgardBalanceCorrectionAddress") (pos 14008450)
          ∷ correction "THOR.RUNE" (codes "thor13nlr0waphxp80pl66cljpf2dskljwuqnd6y9z6")
              (codes "MidgardBalanceCorrectionAddress") (pos 8000000)
          ∷ correction "THOR.RUNE" (codes "thor145neurjz23qcnsj4wyc3p7lyvm7lxyv45pl9x0")
              (codes "MidgardBalanceCorrectionAddress") (pos 14000000)
          ∷ correction "THOR.RUNE" (codes "thor14pt4pds9ta0zutg7p9mshy9ua2s93fncarmwyf")
              (codes "MidgardBalanceCorrectionAddress") (pos 60000)
          ∷ correction "THOR.RUNE" (codes "thor156v9a0xxmlv5s0jf3qlaf56gp2haxv83qn7pym")
              (codes "MidgardBalanceCorrectionAddress") (pos 8000000)
          ∷ correction "THOR.RUNE" (codes "thor15ewgz729xqj7vl4frseyejmhdgln6wyk9qdzen")
              (codes "MidgardBalanceCorrectionAddress") (pos 4000000)
          ∷ correction "THOR.RUNE" (codes "thor15jk72cn4nn7y3zcnmte6uzw8hnwav68msjt2e0")
              (codes "MidgardBalanceCorrectionAddress") (pos 4000000)
          ∷ correction "THOR.RUNE" (codes "thor16r7sn63534kns8un6fkma84w4nh0eyx638705z")
              (codes "MidgardBalanceCorrectionAddress") (pos 10000000)
          ∷ correction "THOR.RUNE" (codes "thor16zh2ukpgk62n9n0ghvq53ksgenfqx6e69lxm3c")
              (codes "MidgardBalanceCorrectionAddress") (pos 2000000)
          ∷ correction "THOR.RUNE" (codes "thor179wpxmm5f7asaqwfwnnf8sn3rductlq3ywmrl0")
              (codes "MidgardBalanceCorrectionAddress") (pos 81000000)
          ∷ correction "THOR.RUNE" (codes "thor17c7kdsx7le2xzj5mvjeyvjv3g9rsqzct3rqrw4")
              (codes "MidgardBalanceCorrectionAddress") (pos 28000000)
          ∷ correction "THOR.RUNE" (codes "thor17fpn23us9ecygyk7hc7ys597na0y3g3f75z5jh")
              (codes "MidgardBalanceCorrectionAddress") (pos 16000)
          ∷ correction "THOR.RUNE" (codes "thor185tpa9awayq82qv8wn7a2dwnp8lkh5k8775q0p")
              (codes "MidgardBalanceCorrectionAddress") (pos 28000000)
          ∷ correction "THOR.RUNE" (codes "thor18el7shmfae98uqmu7924dmnqcwlsave3xkj4l2")
              (codes "MidgardBalanceCorrectionAddress") (pos 8000000)
          ∷ correction "THOR.RUNE" (codes "thor18v9pa0vem262akwxfmury285zrzt7drmjmh69l")
              (codes "MidgardBalanceCorrectionAddress") (pos 2000000)
          ∷ correction "THOR.RUNE" (codes "thor190fdyxc92whfmedsp8d0p6c8pce2ayxjm9zsl6")
              (codes "MidgardBalanceCorrectionAddress") (pos 4000000)
          ∷ correction "THOR.RUNE" (codes "thor19g3xx3mm3h079uq39prx30tkah6h0cgajp9fmm")
              (codes "MidgardBalanceCorrectionAddress") (pos 8000000)
          ∷ correction "THOR.RUNE" (codes "thor19zkcm4a7uvehhfem4sf83jmzazl9wljsa0w3kn")
              (codes "MidgardBalanceCorrectionAddress") (pos 2005600)
          ∷ correction "THOR.RUNE" (codes "thor1anszvcrf86schunkdg6fggc5qdlv6q43cp4s2m")
              (codes "MidgardBalanceCorrectionAddress") (pos 18000000)
          ∷ correction "THOR.RUNE" (codes "thor1arr4d877nmgt9hhm58mllyt93v2dpnl53sedpv")
              (codes "MidgardBalanceCorrectionAddress") (pos 6000000)
          ∷ correction "THOR.RUNE" (codes "thor1cdgvlhs7m9wqc93yrpkqslnzun00vj265f9me5")
              (codes "MidgardBalanceCorrectionAddress") (pos 28000000)
          ∷ correction "THOR.RUNE" (codes "thor1cgsk8av248g75t3jk39erz5w7zcegp8atus0l2")
              (codes "MidgardBalanceCorrectionAddress") (pos 2000000)
          ∷ correction "THOR.RUNE" (codes "thor1d5yrsx7f244hqx0anvxzewngzjdr6pyu9j8vek")
              (codes "MidgardBalanceCorrectionAddress") (pos 2000000)
          ∷ correction "THOR.RUNE" (codes "thor1dm6ta7kd7906exklla76mczcq0cvq4q4dns3tj")
              (codes "MidgardBalanceCorrectionAddress") (pos 6000000)
          ∷ correction "THOR.RUNE" (codes "thor1dp7rglq4y3hjad3q0n7wnxx43k5n338jv3qhn4")
              (codes "MidgardBalanceCorrectionAddress") (pos 8000000)
          ∷ correction "THOR.RUNE" (codes "thor1dx7x00xxey2avxkh4t7uxl0wcvmw5t6zcvrlny")
              (codes "MidgardBalanceCorrectionAddress") (pos 2000000)
          ∷ correction "THOR.RUNE" (codes "thor1dzglhdry3z8n2xpcr3sa36k55e4ulpu2n6dfp9")
              (codes "MidgardBalanceCorrectionAddress") (pos 900)
          ∷ correction "THOR.RUNE" (codes "thor1e3dver6l6tuqxq6pzvxv23k9harl0w0q9dj5ag")
              (codes "MidgardBalanceCorrectionAddress") (pos 6000000)
          ∷ correction "THOR.RUNE" (codes "thor1e4aw3hldyhf2wsntuw7uy69dpvrk8wme5p3fyy")
              (codes "MidgardBalanceCorrectionAddress") (pos 8000000)
          ∷ correction "THOR.RUNE" (codes "thor1e902jc6mkwzzt06edpt8udj0s0hrh4445qef7t")
              (codes "MidgardBalanceCorrectionAddress") (pos 4000000)
          ∷ correction "THOR.RUNE" (codes "thor1enns4sa2weem5ee0q8fp4d2mmkx45q3lgfw6xp")
              (codes "MidgardBalanceCorrectionAddress") (pos 9000)
          ∷ correction "THOR.RUNE" (codes "thor1fjkq5t755gfxzqlxh9w34wt9d8wc750zf536k2")
              (codes "MidgardBalanceCorrectionAddress") (pos 8000000)
          ∷ correction "THOR.RUNE" (codes "thor1fjpyu5wz4nrprmvchfrjaa8ml09c5c6gddyxpy")
              (codes "MidgardBalanceCorrectionAddress") (pos 2000000)
          ∷ correction "THOR.RUNE" (codes "thor1fzrr4smypv092dtaur9mhjzxv6hd90u2jz4wta")
              (codes "MidgardBalanceCorrectionAddress") (pos 6000000)
          ∷ correction "THOR.RUNE" (codes "thor1gt0jfpl3s9r9j8v4wjv2dxs4wzv9azzmpgrdaf")
              (codes "MidgardBalanceCorrectionAddress") (pos 12000000)
          ∷ correction "THOR.RUNE" (codes "thor1gz5krpemm0ce4kj8jafjvjv04hmhle576x8gms")
              (codes "MidgardBalanceCorrectionAddress") (pos 8000000)
          ∷ correction "THOR.RUNE" (codes "thor1hmys2j4mk9rygywcn7nwwxkzq9z2cm2gkzqu87")
              (codes "MidgardBalanceCorrectionAddress") (pos 20000000)
          ∷ correction "THOR.RUNE" (codes "thor1jr08mgqvz3rc6x4srrkgud4ecwfyd2a97tynf2")
              (codes "MidgardBalanceCorrectionAddress") (pos 2000000)
          ∷ correction "THOR.RUNE" (codes "thor1klqtt0md9tlg5r29ehd3zhfdsqmmqwjvjwtsdn")
              (codes "MidgardBalanceCorrectionAddress") (pos 100)
          ∷ correction "THOR.RUNE" (codes "thor1l4dywkmf2gk4r5ezd00u73ss24k9mjtclthlm3")
              (codes "MidgardBalanceCorrectionAddress") (pos 4000000)
          ∷ correction "THOR.RUNE" (codes "thor1l68tc59fy3wez6ead32uvp3hdhdg2w5t9dxtf6")
              (codes "MidgardBalanceCorrectionAddress") (pos 4000000)
          ∷ correction "THOR.RUNE" (codes "thor1lg9qdmsmftkymtnjfeayzel62466rpq2pf4k26")
              (codes "MidgardBalanceCorrectionAddress") (pos 22000000)
          ∷ correction "THOR.RUNE" (codes "thor1ls33ayg26kmltw7jjy55p32ghjna09zp74t4az")
              (codes "MidgardBalanceCorrectionAddress") (pos 6000)
          ∷ correction "THOR.RUNE" (codes "thor1ls6hwrgvn303lmaafj6dqyappks80ltmsuzar0")
              (codes "MidgardBalanceCorrectionAddress") (pos 6000000)
          ∷ correction "THOR.RUNE" (codes "thor1m0gwuq7rr3kwxhue6579hv74mv6gvgnw5f67nh")
              (codes "MidgardBalanceCorrectionAddress") (pos 16000000)
          ∷ correction "THOR.RUNE" (codes "thor1ma6zknxflp0r7c9nkjuekjl90zfwpfx6ar5rcp")
              (codes "MidgardBalanceCorrectionAddress") (pos 4209000)
          ∷ correction "THOR.RUNE" (codes "thor1msnlcmu755zxlnha0s9e7yadq2tdx33tk7d9rr")
              (codes "MidgardBalanceCorrectionAddress") (pos 3000)
          ∷ correction "THOR.RUNE" (codes "thor1nfx29v03v30rj9zmxfrqggu98q8w9uavzx9gpc")
              (codes "MidgardBalanceCorrectionAddress") (pos 2000000)
          ∷ correction "THOR.RUNE" (codes "thor1pe5taj0lfcfmeyse6jcs20thgrp2k2wpx2ka04")
              (codes "MidgardBalanceCorrectionAddress") (pos 2000000)
          ∷ correction "THOR.RUNE" (codes "thor1ptf0xerx5deren2eqwxssfu99w4y3v3dpyttxu")
              (codes "MidgardBalanceCorrectionAddress") (pos 2000000)
          ∷ correction "THOR.RUNE" (codes "thor1q8e586cjmefyrjhwxyhw77rcwgc9ne6yjzlk5h")
              (codes "MidgardBalanceCorrectionAddress") (pos 6000000)
          ∷ correction "THOR.RUNE" (codes "thor1qexyn7k7juz56xmmcyglsk7h9rlvr5ajh0fnqp")
              (codes "MidgardBalanceCorrectionAddress") (pos 4000000)
          ∷ correction "THOR.RUNE" (codes "thor1qx2ja7scp74y7v6z8mkurmvp4g6sxp8wty98a7")
              (codes "MidgardBalanceCorrectionAddress") (pos 10000000)
          ∷ correction "THOR.RUNE" (codes "thor1reu9yf2uvwv22n90t27n7hjfy4pjnng5pj0v8c")
              (codes "MidgardBalanceCorrectionAddress") (pos 2000000)
          ∷ correction "THOR.RUNE" (codes "thor1s03stghe35d3cptmq66dhaqwv7tt60aq6n9cdt")
              (codes "MidgardBalanceCorrectionAddress") (pos 2000000)
          ∷ correction "THOR.RUNE" (codes "thor1s8jgmfta3008lemq3x2673lhdv3qqrhw3psuhh")
              (codes "MidgardBalanceCorrectionAddress") (pos 4009000)
          ∷ correction "THOR.RUNE" (codes "thor1sdehah2rl9w887qy0fhkgml3qhxrqs27cq7kh5")
              (codes "MidgardBalanceCorrectionAddress") (pos 12000000)
          ∷ correction "THOR.RUNE" (codes "thor1tcjt8wr0dcynehpf5yvwv8xrux2p3t4cxjucm5")
              (codes "MidgardBalanceCorrectionAddress") (pos 4000000)
          ∷ correction "THOR.RUNE" (codes "thor1tj5dcjgshep6vvc9dd587dzp0exh5cxxuls30c")
              (codes "MidgardBalanceCorrectionAddress") (pos 32000000)
          ∷ correction "THOR.RUNE" (codes "thor1tq9xzklm9nuuke8ma0kj2npkqa8jl3wsnlvgy4")
              (codes "MidgardBalanceCorrectionAddress") (pos 10000000)
          ∷ correction "THOR.RUNE" (codes "thor1tqpljp607j4szm0u6v5e0w3gw0e33e7xvcxvvy")
              (codes "MidgardBalanceCorrectionAddress") (pos 6000000)
          ∷ correction "THOR.RUNE" (codes "thor1u0h70rjxt8km9wtpcxar69k3me74ryj68jzjrn")
              (codes "MidgardBalanceCorrectionAddress") (pos 24000000)
          ∷ correction "THOR.RUNE" (codes "thor1udd9wjqxdynzchgt48q6vl2m8tkmx7lcnwdrg7")
              (codes "MidgardBalanceCorrectionAddress") (pos 26000000)
          ∷ correction "THOR.RUNE" (codes "thor1uenvdgn3zljqzy7zvss4mgtm6c78z5dj62pl9t")
              (codes "MidgardBalanceCorrectionAddress") (pos 8000000)
          ∷ correction "THOR.RUNE" (codes "thor1uymnvlnvemfxdjucwde7gv30j3x9m2ulfgc2vw")
              (codes "MidgardBalanceCorrectionAddress") (pos 22000000)
          ∷ correction "THOR.RUNE" (codes "thor1v5adrn44u55a7pu28pzdufd09za5f5wlqv9hh3")
              (codes "MidgardBalanceCorrectionAddress") (pos 8000000)
          ∷ correction "THOR.RUNE" (codes "thor1vh4ka53k4a4hd6apl5va8p6h4cevcnalm2t5hk")
              (codes "MidgardBalanceCorrectionAddress") (pos 24000000)
          ∷ correction "THOR.RUNE" (codes "thor1vhx64hwxpqx2r2zdz89p2vxkyd5m7xs5z3t2pt")
              (codes "MidgardBalanceCorrectionAddress") (pos 2000001)
          ∷ correction "THOR.RUNE" (codes "thor1w3455894cze7gxuce7t3dpjnkvgsku28hg8zfz")
              (codes "MidgardBalanceCorrectionAddress") (pos 14000000)
          ∷ correction "THOR.RUNE" (codes "thor1wfx7u28c32xu389v9dh0vdc5lq63lldwpzpxka")
              (codes "MidgardBalanceCorrectionAddress") (pos 4000000)
          ∷ correction "THOR.RUNE" (codes "thor1wvx96p8l80xhjuzd9tf037ztzc0sw73hl0e7sp")
              (codes "MidgardBalanceCorrectionAddress") (pos 4000000)
          ∷ correction "THOR.RUNE" (codes "thor1wy58774wagy4hkljz9mchhqtgk949zdwwe80d5")
              (codes "MidgardBalanceCorrectionAddress") (pos 22009000)
          ∷ correction "THOR.RUNE" (codes "thor1x00pfwyx8xld45sdlmyn29vjf7ev0mv3rcn9al")
              (codes "MidgardBalanceCorrectionAddress") (pos 24200)
          ∷ correction "THOR.RUNE" (codes "thor1xtd55mjchut4dm27t6utmapkckkx0l2sx0phrq")
              (codes "MidgardBalanceCorrectionAddress") (pos 1600)
          ∷ correction "THOR.RUNE" (codes "thor1y2kh2yggamf46amdpm3e9qz2mt5pugm4sq6uy9")
              (codes "MidgardBalanceCorrectionAddress") (pos 14000000)
          ∷ correction "THOR.RUNE" (codes "thor1yjawrz2dmhdyzz439gr5xtefsu6jm6n6h3mdaf")
              (codes "MidgardBalanceCorrectionAddress") (pos 8000000)
          ∷ correction "THOR.RUNE" (codes "thor1yq79qzu5k4mzlvcx7z3k90t8fxnqffx9c4msve")
              (codes "MidgardBalanceCorrectionAddress") (pos 12000000)
          ∷ correction "THOR.RUNE" (codes "thor1yyu52mkdtef2h632ydypnqnlpm4nuafqgu9mwv")
              (codes "MidgardBalanceCorrectionAddress") (pos 6000000)
          ∷ correction "THOR.RUNE" (codes "thor1z0cp2zhc8782ns3yn6t0n5rk9lff9s2mafnx59")
              (codes "MidgardBalanceCorrectionAddress") (pos 4000000)
          ∷ correction "THOR.RUNE" (codes "thor1z4upmr3mhaxhrepgdss44j5jxz373xn583l9gc")
              (codes "MidgardBalanceCorrectionAddress") (pos 16000000)
          ∷ correction "THOR.RUNE" (codes "thor1z53wwe7md6cewz9sqwqzn0aavpaun0gw0exn2r")
              (codes "MidgardBalanceCorrectionAddress") (pos 2000000)
          ∷ correction "THOR.RUNE" (codes "thor1z7kds2p8tftmeyevemnm8796q09f4zrekq5upk")
              (codes "MidgardBalanceCorrectionAddress") (pos 2000000)
          ∷ correction "THOR.RUNE" (codes "thor1zxdja5280ap9hwx929czll30znecpnzccyvnmh")
              (codes "MidgardBalanceCorrectionAddress") (pos 20000000)
          ∷ [],
    )
    ∷ []
