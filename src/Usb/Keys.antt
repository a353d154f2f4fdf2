-- ===== src/Usb/Keys.antt =====
-- if_rtw88_usb.c: the queue of key installs and clears, rtw88_vap_key_set, rtw88_vap_key_delete and
-- rtw88_cam_task. The task gives up the mutex while a request sleeps, so other threads add to the
-- queue between two of its operations; what a loss of the link forgets is not part of this.
pub mod Line
pub mod Order
use rtw88_pub.Base.{
  ℕ, ◌+◌, ◌-◌, ◌%◌, ◌^◌, Bool, true, false, not, ◌&&◌, ◌||◌, List, [], ◌∷◌, ◌++◌, Option, none,
  some, Result, ok, err, M, ◌>>=◌, ◌>>◌, pure, modify, attempt, ignore, when, bit_and, ltb, leb,
  if◌then◌else◌, length, take, replicate,
}
use rtw88_pub.Usb.Softc.{UsbDevice, Softc}
use rtw88_pub.Usb.Cam.{CamKey, clipped, cam_write_entry, cam_clear_entry}
use rtw88_pub.Usb.Tx.{Net, Tx}
use rtw88_pub.Usb.Tx.Release.{ptk_installed}

-- `struct rtw88_cam_op`: a slot, and what is installed there.
pub data CamOp : Type 0 where
  install : (slot : ℕ) → CamKey → CamOp
  clear : (slot : ℕ) → CamOp

pub data Cipher : Type 0 where
  aes_ccm other : Cipher

-- `struct ieee80211_key`, the fields that the driver reads. A cipher may be missing.
pub record NetKey : Type 0 where
  pub cipher : Option Cipher
  pub group : Bool
  pub keyix : ℕ
  pub key : List ℕ
  pub keylen : ℕ

-- `sc_cam_q`, `sc_stat_cam_fails`, whether the task waits to be run, and the operations that a run
-- of the task has copied and not begun.
pub record Keys (W Q : Type 0) : Type 0 where
  pub softc : Softc W
  pub tx : Tx Q
  pub cam_q : List CamOp
  pub stat_cam_fails : ℕ
  pub scheduled : Bool
  pub in_flight : List CamOp

abbrev pub cam_queue_depth : ℕ
cam_queue_depth = 16

abbrev cam_pairwise_slot : ℕ
cam_pairwise_slot = 4

abbrev cam_type_aes : ℕ
cam_type_aes = 4

unfoldable pub key_slot : NetKey → ℕ
key_slot k = if k.group then bit_and k.keyix 0x3 else cam_pairwise_slot

-- The peer of a group key is left zero. Without a BSS the pairwise peer is broadcast.
key_peer : Option (List ℕ) → NetKey → List ℕ
key_peer bssid k =
    if k.group then replicate 6 0 else elim bssid [ none ↦ replicate 6 0xff | some mac ↦ mac ]

unfoldable pub install_op : Option (List ℕ) → NetKey → CamOp
unfolding key_slot key_peer
install_op bssid k = install (key_slot k) (record {
  kind = cam_type_aes;
  keyidx = bit_and k.keyix 0x3;
  group = k.group;
  peer_mac = some (key_peer bssid k);
  key = take (clipped k.keylen) k.key ++ replicate (16 - clipped k.keylen) 0;
  keylen = clipped k.keylen;
})

module _ {W Q : Type 0} where
  abbrev pub on_softc : {A : Type 0} → M (Softc W) A → M (Keys W Q) A
  on_softc m s = let (r, sc) = m s.softc in (r, record s { softc = sc })

  abbrev pub on_tx : {A : Type 0} → M (Tx Q) A → M (Keys W Q) A
  on_tx m s = let (r, t) = m s.tx in (r, record s { tx = t })

  -- A full queue refuses, and the refusal is counted.
  unfoldable pub push_op : CamOp → Keys W Q → Keys W Q
  push_op op s =
      if leb cam_queue_depth (length s.cam_q)
      then record s { stat_cam_fails = (s.stat_cam_fails + 1) % 2 ^ 64 }
      else record s { cam_q = s.cam_q ++ (op ∷ []); scheduled = true }

  -- A pairwise key that is queued shuts the gate of the transmit path.
  unfoldable pub shut_gate : NetKey → Keys W Q → Keys W Q
  shut_gate k s =
      if k.group || leb cam_queue_depth (length s.cam_q)
      then s
      else record s { tx = record s.tx { ptk_install_pending = true } }

  -- The value that net80211 gets: whether the key is taken care of.
  unfoldable pub key_set : Option (List ℕ) → NetKey → Keys W Q → ℕ × Keys W Q
  unfolding install_op push_op shut_gate
  key_set bssid k s = elim k.cipher [
    | none ↦ (0, s)
    | some other ↦ (1, s)
    | some aes_ccm ↦ (
      if leb cam_queue_depth (length s.cam_q) then 0 else 1,
      push_op (install_op bssid k) (shut_gate k s),
    )
  ]

  unfoldable pub key_delete : NetKey → Keys W Q → ℕ × Keys W Q
  unfolding key_slot push_op
  key_delete k s = elim k.cipher [
    | none ↦ (1, s)
    | some other ↦ (1, s)
    | some aes_ccm ↦ (1, push_op (clear (key_slot k)) s)
  ]

  -- A run of the task begins when the last one is over: it takes all of the queue.
  unfoldable pub cam_start : Keys W Q → Keys W Q
  cam_start s =
      if s.scheduled && leb (length s.in_flight) 0
      then record s { scheduled = false; in_flight = s.cam_q; cam_q = [] }
      else s

module _ {W Q : Type 0} (usb : UsbDevice W) (net : Net Q) where
  -- Only a pairwise key that was written opens the gate again.
  unfoldable pub installed : CamKey → Result (Unit {0}) → M (Keys W Q) (Unit {0})
  installed k (ok _) = when (not k.group) (on_tx (ptk_installed net))
  installed k (err e) = pure tt

  unfoldable pub cam_op : CamOp → M (Keys W Q) (Unit {0})
  unfolding installed
  cam_op (install slot k) = do r ← attempt (on_softc (cam_write_entry usb slot k)); installed k r
  cam_op (clear slot) = ignore (on_softc (cam_clear_entry usb slot))

  -- The next operation of the run.
  unfoldable pub cam_next : Keys W Q → Keys W Q
  unfolding cam_op
  cam_next s = elim s.in_flight [ [] ↦ s | op ∷ ops ↦ (cam_op op (record s { in_flight = ops })).1 ]
