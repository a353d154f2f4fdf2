-- ===== src/Examples/Handle.antt =====
-- The theorems on the handle and its subsystems at concrete inputs.
use rtw88_pub.Base.{ℕ, ◌≡◌, refl, arith, List, [], ◌∷◌, ◌++◌, none, some, replicate, true, false}
use rtw88_pub.Efuse.{done, logical_walk}
use rtw88_pub.Efuse.Total.{Settles, logical_walk-Settles}
use rtw88_pub.Efuse.Read.{efuse_read}
use rtw88_pub.Efuse.Read.Cache.{Cached, efuse_read-Cached}
use rtw88_pub.Efuse.RoundTrip.Encoding.{Block, header, encode_all, apply_all}
use rtw88_pub.Efuse.RoundTrip.{logical_walk-encode_all}
use rtw88_pub.Ps.Follows.{IsLps, Notified, notify_all, ps_notify-outcome, notify_all-IsLps}
use rtw88_pub.Examples.{cell, handle}

abbrev sixteen : List ℕ
sixteen = 0x0c ∷ 1 ∷ 2 ∷ 3 ∷ 4 ∷ 0xff ∷ replicate 10 0xff

logical_walk-Settles_example : Settles 16 (logical_walk 16 4 sixteen)
logical_walk-Settles_example =
    logical_walk-Settles 16 4 sixteen refl (omega arith) (omega arith) (omega arith)

abbrev blocks : List Block
blocks = record { idx = 0; words = some (1, 2) ∷ some (3, 4) ∷ none ∷ none ∷ [] } ∷ []

logical_walk-encode_all_example :
    logical_walk 16 4 (encode_all blocks ++ 0xff ∷ [] ++ replicate 10 0xff)
    ≡ done (apply_all blocks (replicate 16 0xff))
unfolding header
logical_walk-encode_all_example =
    logical_walk-encode_all 16 4 blocks (replicate 10 0xff) refl (omega arith) (omega arith)
      (omega arith)
      (record { four = refl; present = omega arith; small = omega arith; inside = omega arith }, tt)

efuse_read-Cached_example : Cached handle (efuse_read cell handle).0 (efuse_read cell handle).1
efuse_read-Cached_example = efuse_read-Cached cell handle

ps_notify-outcome_example : Notified cell true handle
ps_notify-outcome_example = ps_notify-outcome cell true handle refl

notify_all-IsLps_example :
    IsLps (notify_all cell (true ∷ false ∷ []) handle).1.lps
    × ((notify_all cell (true ∷ false ∷ []) handle).1.lps.macid ≡ 0)
    × ((notify_all cell (true ∷ false ∷ []) handle).1.lps.awake_interval ≡ 1)
    × ((notify_all cell (true ∷ false ∷ []) handle).1.lps.smart_ps ≡ 2)
notify_all-IsLps_example = notify_all-IsLps cell (true ∷ false ∷ []) handle refl
