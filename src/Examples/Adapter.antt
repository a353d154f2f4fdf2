-- ===== src/Examples/Adapter.antt =====
-- The theorems on the USB transport at concrete inputs.
use rtw88_pub.Base.{
  ℕ, zero, suc, ◌+◌, ◌/◌, ◌%◌, ◌^◌, ◌<◌, ◌≤◌, ◌≡◌, refl, arith, ◌⊎◌, List, [], ◌∷◌, some, replicate,
  All, ok, true, false, le32enc, has,
}
use rtw88_pub.Usb.Mailbox.{RaInfo, ra_info_msg, bit_of, h2c_mailbox}
use rtw88_pub.Usb.Mailbox.Fields.{ra_info_fields}
use rtw88_pub.Usb.Mailbox.RoundRobin.{h2c_mailbox-order}
use rtw88_pub.Usb.Dig.{next_igi, dig_cvrg_min, dig_cvrg_max, dig_tick, dig_record}
use rtw88_pub.Usb.Dig.Gain.{next_igi-bounds, igi_after, igi_after-settles}
use rtw88_pub.Usb.Dig.Tick.{Counted, Uncounted, dig_tick-decided}
use rtw88_pub.Usb.Phy.{cond_branch, phy_walk_table, phy_load_blob}
use rtw88_pub.Usb.Phy.Program.{Item, plain, choose, flat_items, selected, apply_all}
use rtw88_pub.Usb.Phy.Program.Refinement.{phy_walk_table-selected}
use rtw88_pub.Usb.Phy.Blob.{Table, encode_blob, load_all, phy_load_blob-encode_blob}
use rtw88_pub.Usb.Cam.{CamKey, cam_mac, cam_content}
use rtw88_pub.Usb.Cam.Entry.{cam_content-fields}
use rtw88_pub.Examples.{wire, softc}

abbrev ra : RaInfo
ra = record {
  mac_id = 0;
  rate_id = 7;
  bw_mode = 0;
  init_ra_lvl = 1;
  sgi_en = true;
  ldpc_en = false;
  vht_en = 0;
  no_update = true;
}

ra_info_fields_example :
    let m = ra_info_msg ra in
    (m < 2 ^ 32)
    × (m % 2 ^ 8 ≡ 0x40)
    × (m / 2 ^ 8 % 2 ^ 8 ≡ 0)
    × (m / 2 ^ 16 % 2 ^ 5 ≡ 7 % 32)
    × (m / 2 ^ 21 % 2 ^ 2 ≡ 1 % 4)
    × (m / 2 ^ 23 % 2 ≡ bit_of true)
    × (m / 2 ^ 24 % 2 ^ 2 ≡ 0 % 4)
    × (m / 2 ^ 26 % 2 ≡ bit_of false)
    × (m / 2 ^ 27 % 2 ≡ bit_of true)
    × (m / 2 ^ 28 % 2 ^ 2 ≡ 0 % 4)
    × (m / 2 ^ 30 % 2 ≡ 1)
ra_info_fields_example = ra_info_fields ra (omega arith)

abbrev World : Type 0
World = List (ℕ × List ℕ)

abbrev commands : List (ℕ × ℕ)
commands = (0x66, 0) ∷ (0x20, 0xc00) ∷ []

h2c_mailbox-order_example : h2c_mailbox wire 0x66 0xc00 softc ≡ (
  ok tt,
  record softc {
    world = (0x1dc, 0x66 ∷ 0 ∷ 0 ∷ 0 ∷ []) ∷ (0x1fc, 0 ∷ 0x0c ∷ 0 ∷ 0 ∷ []) ∷ (0x1cc, []) ∷ [];
    io_busy = false;
    h2c_box_next = (3 + 1) % 4;
  },
)
unfolding has
h2c_mailbox-order_example = h2c_mailbox-order wire 0x66 0xc00 0 softc _ _ _ refl refl refl refl

next_igi-bounds_example :
    (dig_cvrg_min ≤ next_igi 0x20 6000)
    × (next_igi 0x20 6000 ≤ dig_cvrg_max)
    × (dig_cvrg_min ≤ 0x20
        → 0x20 ≤ dig_cvrg_max
        → (next_igi 0x20 6000 ≤ 0x20 + 2) × (0x20 ≤ next_igi 0x20 6000 + 2))
    × (2000 < 6000 → 0x20 ≤ dig_cvrg_max → 0x20 ≤ next_igi 0x20 6000)
    × (6000 ≤ 4000 → dig_cvrg_min ≤ 0x20 → next_igi 0x20 6000 ≤ 0x20)
    × ((more : ℕ) → 6000 ≤ more → next_igi 0x20 6000 ≤ next_igi 0x20 more)
next_igi-bounds_example = next_igi-bounds 0x20 6000 (omega arith)

igi_after-settles_example :
    (All (λ fa. fa ≤ 2000) (replicate 9 100) → igi_after 0x7f (replicate 9 100) ≡ dig_cvrg_min)
    × (All (λ fa. 5000 < fa) (replicate 9 100) → igi_after 0x7f (replicate 9 100) ≡ dig_cvrg_max)
igi_after-settles_example = igi_after-settles 0x7f (replicate 9 100) (omega arith) (omega arith)

dig_tick-decided_example :
    ((dig_tick wire softc).0 ≡ ok tt)
    × ((Uncounted wire softc (dig_tick wire softc).1 × ((dig_tick wire softc).1.dig ≡ softc.dig))
        ⊎ ((fa : ℕ) × Counted wire softc fa
            × (fa ≤ 0xffff)
            × ((dig_tick wire softc).1.dig ≡ dig_record (next_igi 0x20 fa) fa softc.dig)))
dig_tick-decided_example = dig_tick-decided wire softc

abbrev program : List Item
program =
    plain (0x800, 1)
    ∷ choose
        (record { opening = (0x80000001, 0); check = (0x40000000, 0); entries = (0x804, 2) ∷ [] }
          ∷ record {
            opening = (0x90000002, 0);
            check = (0x40000000, 0);
            entries = (0x804, 3) ∷ (0x808, 4) ∷ [];
          }
          ∷ [])
        (some (record { marker = (0xa0000000, 0); entries = (0x804, 5) ∷ [] })) (0xb0000000, 0)
    ∷ []

phy_walk_table-selected_example :
    phy_walk_table wire 2 (flat_items program) softc
    ≡ apply_all wire 2 (selected softc.ids program) 0 softc
unfolding has cond_branch
phy_walk_table-selected_example = phy_walk_table-selected wire 2 program softc (
  (refl, refl),
  (
    (
      (
        (refl, omega arith, (refl, refl), ((refl, refl), tt)),
        ((refl, omega arith, (refl, refl), ((refl, refl), ((refl, refl), tt))), tt),
      ),
      ((refl, refl), ((refl, refl), tt)),
      (refl, refl),
    ),
    tt,
  ),
)

abbrev tables : List Table
tables = record { kind = 2; words = 0x800 ∷ 1 ∷ [] } ∷ []

phy_load_blob-encode_blob_example :
    phy_load_blob wire (encode_blob tables (9 ∷ [])) softc ≡ load_all wire tables softc
phy_load_blob-encode_blob_example =
    phy_load_blob-encode_blob wire tables (9 ∷ []) softc
      ((omega arith, (omega arith, (omega arith, tt))), tt) (omega arith)

-- A pairwise AES key of sixteen bytes.
abbrev pairwise : CamKey
pairwise = record {
  kind = 4;
  keyidx = 0;
  group = false;
  peer_mac = some (2 ∷ 0x11 ∷ 0x22 ∷ 0x33 ∷ 0x44 ∷ 0x55 ∷ []);
  key = replicate 16 0xa5;
  keylen = 16;
}

bytes_of_mac : All (λ b. b < 256) (2 ∷ 0x11 ∷ 0x22 ∷ 0x33 ∷ 0x44 ∷ 0x55 ∷ [])
bytes_of_mac =
    (omega arith, (omega arith, (omega arith, (omega arith, (omega arith, (omega arith, tt))))))

bytes_same : (n : ℕ) → All (λ b. b < 256) (replicate n 0xa5)
bytes_same zero = tt
bytes_same (suc n) = (omega arith, bytes_same n)

bytes_of_key : All (λ b. b < 256) (replicate 16 0xa5)
bytes_of_key = bytes_same 16

cam_content-fields_example :
    let w = cam_content pairwise in
    (w 0 % 2 ^ 2 ≡ 0 % 4)
    × (w 0 / 2 ^ 2 % 2 ^ 3 ≡ 4 % 8)
    × (w 0 / 2 ^ 6 % 2 ≡ bit_of false)
    × (w 0 / 2 ^ 15 % 2 ≡ 1)
    × (w 0 / 2 ^ 16 % 2 ^ 8 ≡ 2)
    × (w 0 / 2 ^ 24 ≡ 0x11)
    × (le32enc (w 1) ≡ 0x22 ∷ 0x33 ∷ 0x44 ∷ 0x55 ∷ [])
    × (le32enc (w 2) ≡ 0xa5 ∷ 0xa5 ∷ 0xa5 ∷ 0xa5 ∷ [])
    × (le32enc (w 3) ≡ 0xa5 ∷ 0xa5 ∷ 0xa5 ∷ 0xa5 ∷ [])
    × (le32enc (w 4) ≡ 0xa5 ∷ 0xa5 ∷ 0xa5 ∷ 0xa5 ∷ [])
    × (le32enc (w 5) ≡ 0xa5 ∷ 0xa5 ∷ 0xa5 ∷ 0xa5 ∷ [])
    × (w 6 ≡ 0)
    × (w 7 ≡ 0)
unfolding cam_mac
cam_content-fields_example = cam_content-fields pairwise bytes_of_mac bytes_of_key
