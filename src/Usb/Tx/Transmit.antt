-- ===== src/Usb/Tx/Transmit.antt =====
-- if_rtw88_usb.c: a frame that net80211 or a raw socket hands over, rtw88_transmit and
-- rtw88_raw_xmit: an EAPOL key can be made QoS data, what must be encrypted is, and the frame is
-- queued. mbuf(9) is a parameter. Where the look for a key reads past the end (`undefined`), what
-- follows does not matter.
pub mod Forms
pub mod Settled
use rtw88_pub.Base.{
  ℕ, zero, suc, ◌+◌, ◌*◌, ◌^◌, Bool, true, false, not, ◌&&◌, ◌||◌, List, [], ◌∷◌, ◌++◌, Option,
  none, some, Result, ok, err, M, ◌>>=◌, ◌>>◌, pure, throw, get, modify, attempt, enobufs, enomem,
  bit_and, bit_or, has, ltb, ◌==◌, if◌then◌else◌, get_or, length, take, drop, set,
}
use rtw88_pub.Usb.Tx.{Mbuf, Net, Tx, eapol_key_info, tx_enqueue}
use rtw88_pub.Usb.Tx.Release.{encap_or_plain}

-- What mbuf(9) does: `m_pullup` of a whole frame, `M_TRAILINGSPACE`, `m_get2`, which gives the buffer
-- that the frame moves to, and `m_len`, the bytes of the first buffer.
pub record Mbufs : Type 0 where
  pub pullup : Mbuf → Option Mbuf
  pub trailing_space : Mbuf → ℕ
  pub get2 : ℕ → Option ℕ
  pub first_len : Mbuf → ℕ

-- `freed` are the frames that are given up, the last one first. A buffer whose frame moved to
-- another one is not among them.
pub record Xmit (Q : Type 0) : Type 0 where
  pub tx : Tx Q
  pub eapol_qos_upgrade : Bool
  pub stat_eapol_qos_upgrade : ℕ
  pub freed : List ℕ

-- The QoS control field, of TID 7, is put behind the header, and the sequence control is cleared.
unfoldable pub upgraded : List ℕ → List ℕ
upgraded bytes =
    set (take 22 bytes) 0 (bit_or (get_or bytes 0 0) 0x80) ++ 0 ∷ 0 ∷ 7 ∷ 0 ∷ drop 24 bytes

-- MIC and SECURE, without ACK.
unfoldable pub is_message4 : ℕ → Bool
is_message4 key_info = bit_and key_info 0x0300 == 0x0300 && bit_and key_info 0x0080 == 0

abbrev pub protected : Mbuf → Mbuf
protected m = record m { bytes = set m.bytes 1 (bit_or (get_or m.bytes 1 0) 0x40) }

module _ {Q : Type 0} where
  abbrev pub on_tx : {A : Type 0} → M (Tx Q) A → M (Xmit Q) A
  on_tx m x = let (r, s) = m x.tx in (r, record x { tx = s })

  -- `m_freem`.
  abbrev pub free : Mbuf → M (Xmit Q) (Unit {0})
  free m = modify (λ (x : Xmit Q). record x { freed = m.tag ∷ x.freed })

module _ {Q : Type 0} (mbufs : Mbufs) (net : Net Q) where
  abbrev pub lose : Mbuf → M (Xmit Q) (Option Mbuf)
  lose m = do free m; pure none

  unfoldable pub move : Option ℕ → Mbuf → M (Xmit Q) (Option Mbuf)
  move none m = lose m
  move (some tag) m = pure (some (record m { tag = tag }))

  -- Two more bytes of room: in the buffer, or in another one.
  unfoldable pub widen : Mbuf → M (Xmit Q) (Option Mbuf)
  unfolding move
  widen m =
      if ltb (mbufs.trailing_space m) 2
      then move (mbufs.get2 (length m.bytes + 2)) m
      else pure (some m)

  unfoldable pub insert_qos : Option Mbuf → M (Xmit Q) (Option Mbuf)
  unfolding upgraded
  insert_qos none = pure none
  insert_qos (some m) = do
    modify (λ (x : Xmit Q). record x { stat_eapol_qos_upgrade = x.stat_eapol_qos_upgrade + 1 })
    pure (some (record m { bytes = upgraded m.bytes }))

  unfoldable pub upgrade : Option Mbuf → Mbuf → M (Xmit Q) (Option Mbuf)
  unfolding widen insert_qos
  upgrade none m = lose m
  upgrade (some whole) m = do wide ← widen whole; insert_qos wide

  unfoldable pub upgrade_keyed : Result (Option ℕ) → Mbuf → M (Xmit Q) (Option Mbuf)
  unfolding upgrade
  upgrade_keyed (err e) m = throw e
  upgrade_keyed (ok none) m = pure (some m)
  upgrade_keyed (ok (some key_info)) m = upgrade (mbufs.pullup m) m

  unfoldable pub maybe_upgrade_eapol_qos : Mbuf → M (Xmit Q) (Option Mbuf)
  unfolding upgrade_keyed
  maybe_upgrade_eapol_qos m = do
    x ← get
    if not x.eapol_qos_upgrade || ltb (length m.bytes) (24 + 8 + 4)
        then pure (some m)
        else upgrade_keyed (eapol_key_info net m.bytes) m

  -- The slot for the fourth message is free or taken.
  unfoldable pub hold : Option ℕ → Mbuf → M (Xmit Q) (Option Mbuf)
  hold (some held) m = pure (some (encap_or_plain net none m))
  hold none m = do
    modify (λ (x : Xmit Q). record x {
      tx = record x.tx { m4_needs_encap = some m.tag; ptk_install_pending = true };
    })
    pure (some m)

  unfoldable pub encap_m4 : Option Mbuf → Mbuf → M (Xmit Q) (Option Mbuf)
  unfolding hold
  encap_m4 (some encrypted) m = pure (some encrypted)
  encap_m4 none m = do x ← get; hold x.tx.m4_needs_encap m

  unfoldable pub encap_keyed : Result (Option ℕ) → Mbuf → M (Xmit Q) (Option Mbuf)
  unfolding is_message4 encap_m4
  encap_keyed (err e) m = throw e
  encap_keyed (ok none) m = pure (some m)
  encap_keyed (ok (some key_info)) m =
      if is_message4 key_info
      then encap_m4 (net.encap (protected m)) (protected m)
      else pure (some m)

  -- No frame is the error, ENOBUFS.
  unfoldable pub crypto_encap_if_needed : (has_node : Bool) → Mbuf → M (Xmit Q) (Option Mbuf)
  unfolding encap_keyed
  crypto_encap_if_needed has_node m =
      if not has_node || ltb (mbufs.first_len m) 24
      then pure (some m)
      else if has (get_or m.bytes 1 0) 0x40
      then pure (net.encap m)
      else encap_keyed (eapol_key_info net m.bytes) m

  unfoldable pub finish : Mbuf → Result (Unit {0}) → M (Xmit Q) (Unit {0})
  finish m (ok done) = pure tt
  finish m (err e) = do free m; throw e

  unfoldable pub enqueue_or_free : Mbuf → Option Mbuf → M (Xmit Q) (Unit {0})
  unfolding finish
  enqueue_or_free m none = do free m; throw enobufs
  enqueue_or_free m (some ready) = do r ← attempt (on_tx (tx_enqueue net ready)); finish m r

  unfoldable pub encap_and_enqueue : (has_node : Bool) → Option Mbuf → M (Xmit Q) (Unit {0})
  unfolding crypto_encap_if_needed enqueue_or_free
  encap_and_enqueue has_node none = throw enomem
  encap_and_enqueue has_node (some m) = do
    ready ← crypto_encap_if_needed has_node m
    enqueue_or_free m ready

  unfoldable pub transmit : (has_node : Bool) → Mbuf → M (Xmit Q) (Unit {0})
  unfolding maybe_upgrade_eapol_qos encap_and_enqueue
  transmit has_node m = do wide ← maybe_upgrade_eapol_qos m; encap_and_enqueue has_node wide

  -- The node is always there.
  unfoldable pub raw_xmit : Mbuf → M (Xmit Q) (Unit {0})
  unfolding transmit
  raw_xmit m = transmit true m
