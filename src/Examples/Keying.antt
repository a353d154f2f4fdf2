-- ===== src/Examples/Keying.antt =====
-- The theorem on the order of key operations at a concrete exchange.
use rtw88_pub.Base.{
  ℕ, ◌≡◌, refl, arith, inl, true, false, List, [], ◌∷◌, ◌++◌, none, some, replicate,
}
use rtw88_pub.Usb.Tx.{Mbuf}
use rtw88_pub.Usb.Keys.{aes_ccm, NetKey, Keys}
use rtw88_pub.Usb.Keys.Line.{
  Event, set_key, delete_key, begin_run, next_op, after, all_accepted, all_done, left, IsOrderly,
}
use rtw88_pub.Usb.Keys.Order.{carried_out, AllGated, all_done-accepted}
use rtw88_pub.Examples.{wire, softc}
use rtw88_pub.Examples.Front.{net, queues}

abbrev pairwise : NetKey
pairwise = record {
  cipher = some aes_ccm;
  group = false;
  keyix = 0;
  key = replicate 16 0x11;
  keylen = 16;
}

abbrev broadcast : NetKey
broadcast = record {
  cipher = some aes_ccm;
  group = true;
  keyix = 1;
  key = replicate 16 0x22;
  keylen = 16;
}

abbrev keys : Keys (List (ℕ × List ℕ)) (List Mbuf)
keys = record {
  softc = softc;
  tx = queues;
  cam_q = [];
  stat_cam_fails = 0;
  scheduled = false;
  in_flight = [];
}

-- The group key comes while a run of the task is at the pairwise one.
abbrev exchange : List Event
exchange =
    set_key (some (replicate 6 0xaa)) pairwise
    ∷ delete_key broadcast
    ∷ begin_run
    ∷ next_op
    ∷ set_key none broadcast
    ∷ next_op
    ∷ begin_run
    ∷ next_op
    ∷ []

all_done-accepted_example :
    (all_done wire net exchange keys ++ left (after wire net exchange keys)
      ≡ all_accepted wire net exchange keys)
    × IsOrderly (after wire net exchange keys)
    × ((after wire net exchange keys).softc
        ≡ carried_out wire net (all_done wire net exchange keys) keys.softc)
    × AllGated wire net exchange keys
all_done-accepted_example = all_done-accepted wire net exchange keys refl (omega arith, inl refl)
