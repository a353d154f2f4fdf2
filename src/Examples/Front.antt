-- ===== src/Examples/Front.antt =====
-- The theorems on the power sequences, the claim of endpoint 0, the keepalive and the transmit
-- queues at concrete inputs.
use rtw88_pub.Base.{
  ℕ, ◌+◌, ◌≤◌, ◌≡◌, refl, arith, ◌⊎◌, ◌↔◌, List, [], ◌∷◌, ◌++◌, Option, some, none, replicate, ok,
  err, true, false, not, length, ◌==◌, eio, ebusy, undefined, ltb, if◌then◌else◌, set,
}
use rtw88_pub.Usb.Power.{PwrRow, row, pwr_seq_parser}
use rtw88_pub.Usb.Power.Tables.{card_enable_flow, card_disable_flow}
use rtw88_pub.Usb.Power.Meaning.{card_flows-BusError}
use rtw88_pub.Usb.Claim.{asking, holding, idle, Threads, phase, Step, ask, take, here, later}
use rtw88_pub.Usb.Claim.Exclusion.{claim-exclusive}
use rtw88_pub.Usb.Keepalive.{fwka_task}
use rtw88_pub.Usb.Keepalive.Task.{commanded, observed, fwka_task-outcome}
use rtw88_pub.Usb.Tx.{Mbuf, Net, Tx, is_data, is_snap_eapol, eapol_key_info, tx_enqueue}
use rtw88_pub.Usb.Tx.Eapol.{eapol_key_info-undefined}
use rtw88_pub.Usb.Tx.Gate.{Fifo, Outcome, tx_enqueue-Outcome}
use rtw88_pub.Usb.Tx.Release.{ptk_installed}
use rtw88_pub.Usb.Tx.Release.Order.{voices, others, Room, kicked, ptk_installed-order}
use rtw88_pub.Examples.{wire, softc}

abbrev World : Type 0
World = List (ℕ × List ℕ)

-- A row for PCI, a write for USB, and the end.
abbrev sequences : List (List PwrRow)
sequences =
    (row 0x75 0xff 0x4 0 1 0x01 0x01
      ∷ row 0x5 0xff 0x2 0 1 0x18 0
      ∷ row 0xffff 0xff 0xf 0 4 0 0
      ∷ [])
    ∷ []

card_flows-BusError_example :
    ((pwr_seq_parser wire card_enable_flow softc).0 ≡ err eio → (eio ≡ eio) ⊎ (eio ≡ ebusy))
    × ((pwr_seq_parser wire card_disable_flow softc).0 ≡ err eio → (eio ≡ eio) ⊎ (eio ≡ ebusy))
card_flows-BusError_example = card_flows-BusError wire softc eio

-- Two threads ask and the second one is inside.
abbrev inside : Threads
inside = record { busy = true; phases = asking ∷ holding ∷ [] }

claim-exclusive_example :
    ((i j : ℕ) → phase inside i ≡ holding → phase inside j ≡ holding → i ≡ j)
    × ((i : ℕ) → phase inside i ≡ holding → inside.busy ≡ true)
    × (inside.busy ≡ true → (i : ℕ) × (phase inside i ≡ holding))
    × ((i : ℕ)
        → phase inside i ≡ asking
        → Step inside (record { busy = true; phases = set inside.phases i holding })
          ⊎ ((j : ℕ) × Step inside (record { busy = false; phases = set inside.phases j idle })))
claim-exclusive_example = claim-exclusive 2 inside (
    later (later (later here (ask 0 (omega arith) refl)) (ask 1 (omega arith) refl))
      (take 1 refl refl))

fwka_task-outcome_example :
    (softc.keepalive.active ≡ false → fwka_task wire 2500 softc ≡ (ok tt, softc))
    × (softc.keepalive.active ≡ true
        → fwka_task wire 2500 softc ≡ (
          ok tt,
          record (commanded wire 2500 softc) {
            keepalive = observed wire 2500 softc.rx_packets softc.keepalive;
          },
        ))
fwka_task-outcome_example = fwka_task-outcome wire 2500 softc (omega arith)

-- A queue of four frames at most, and headers of 24 bytes.
abbrev bounded : Mbuf → List Mbuf → Option (List Mbuf)
bounded m q = if ltb (length q) 4 then some (q ++ m ∷ []) else none

abbrev first : List Mbuf → Option (Mbuf × List Mbuf)
first [] = none
first (m ∷ q) = some (m, q)

abbrev pub net : Net (List Mbuf)
net = record {
  enqueue = bounded;
  dequeue = first;
  qlen = length;
  hdrsize = λ bytes. 24;
  encap = λ m. some m;
}

pub bounded-taken : (m : Mbuf) (q q' : List Mbuf) → bounded m q ≡ some q' → q' ≡ q ++ m ∷ []
bounded-taken m q q' h = grind (arith, h)

pub first-out : (q q' : List Mbuf) (m : Mbuf) → first q ≡ some (m, q') → q ≡ m ∷ q'
first-out [] q' m h = absurd cc
first-out (n ∷ q) q' m h = cc

pub first-dry : (q : List Mbuf) → first q ≡ none → q ≡ []
first-dry [] h = refl
first-dry (n ∷ q) h = absurd cc

abbrev pub fifo : Fifo net
fifo = record {
  contents = λ q. q;
  taken = bounded-taken;
  out = first-out;
  dry = first-dry;
  len = λ q. refl;
}

-- A data frame of 39 bytes: 24 of header and 15 with the EAPOL protocol.
abbrev key_frame : List ℕ
key_frame =
    0x08 ∷ 0x41 ∷ replicate 22 0 ++ 0xaa ∷ 0xaa ∷ 0x03 ∷ 0 ∷ 0 ∷ 0 ∷ 0x88 ∷ 0x8e ∷ replicate 7 0

eapol_key_info-undefined_example : (eapol_key_info net key_frame ≡ err undefined) ↔ (
    (39 ≤ length key_frame)
    × (is_data key_frame ≡ true)
    × (length key_frame ≡ 24 + 15)
    × (is_snap_eapol key_frame 24 ≡ true))
eapol_key_info-undefined_example = eapol_key_info-undefined net key_frame

abbrev pub queues : Tx (List Mbuf)
queues = record {
  mgmt_q = [];
  data_q = [];
  data_vo_q = [];
  pending_q = [];
  ptk_install_pending = true;
  m4_needs_encap = none;
  stat_tx_drops = 0;
  oerrors = 0;
  pending_qlen_max = 0;
  data_qlen_max = 0;
  mgmt_qlen_max = 0;
  started = [];
}

abbrev frame : Mbuf
frame = record { tag = 1; bytes = 0x08 ∷ 0x41 ∷ replicate 30 0 }

tx_enqueue-Outcome_example : Outcome fifo frame queues (tx_enqueue net frame queues)
tx_enqueue-Outcome_example = tx_enqueue-Outcome fifo frame queues

net-Room : Room net (λ q. q) 4
net-Room m q h = (q ++ m ∷ [], grind (arith, h))

-- The frame that waits is the marked one, of TID 5.
abbrev waiting : Mbuf
waiting = record { tag = 9; bytes = 0x88 ∷ 0x41 ∷ replicate 22 0 ++ 0x05 ∷ replicate 9 0 }

abbrev held : Tx (List Mbuf)
held = record queues { pending_q = waiting ∷ []; m4_needs_encap = some 9; data_q = frame ∷ [] }

ptk_installed-order_example :
    let out = ptk_installed net held in
    let to_voice = voices net (some 9) (waiting ∷ []) in
    let to_others = others net (some 9) (waiting ∷ []) in
    (out.0 ≡ ok tt)
    × (out.1.ptk_install_pending ≡ false)
    × (out.1.pending_q ≡ [])
    × (out.1.data_vo_q ≡ [] ++ to_voice)
    × (out.1.data_q ≡ (frame ∷ []) ++ to_others)
    × (out.1.mgmt_q ≡ [])
    × (out.1.started
        ≡ (kicked (not (length to_others == 0)) (not (length to_voice == 0)) held).started)
unfolding eapol_key_info
ptk_installed-order_example =
    ptk_installed-order fifo 4 net-Room held ((none, refl), tt) (omega arith) (omega arith)
