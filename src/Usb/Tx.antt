-- ===== src/Usb/Tx.antt =====
-- if_rtw88_usb.c: the transmit queues, the gate that holds protected frames back until the pairwise
-- key is installed, and the look into a frame for an EAPOL key. Packet queues are the kernel's
-- mbufq(9); the size of a header and the encryption of a frame are net80211's: all of them are
-- parameters. A frame is its bytes and a tag that stands for the pointer.
pub mod Eapol
pub mod Gate
pub mod Release
pub mod Drain
pub mod Callback
pub mod Transmit
use rtw88_pub.Base.{
  ℕ, zero, suc, ◌+◌, ◌*◌, ◌^◌, ◌%◌, Bool, true, false, not, ◌&&◌, ◌||◌, List, [], ◌∷◌, Option, none,
  some, Result, ok, err, Errno, einval, emsgsize, enobufs, undefined, M, ◌>>=◌, ◌>>◌, pure, throw,
  get, modify, bit_and, bit_or, has, ltb, leb, ◌==◌, if◌then◌else◌, get_or, length, take, drop,
  ◌<<◌,
}

pub record Mbuf : Type 0 where
  pub tag : ℕ
  pub bytes : List ℕ

-- What the driver calls: `mbufq_enqueue`, which may refuse, `mbufq_dequeue`, `mbufq_len`,
-- `ieee80211_hdrsize` and `ieee80211_crypto_encap`, which may fail.
pub record Net (Q : Type 0) : Type 0 where
  pub enqueue : Mbuf → Q → Option Q
  pub dequeue : Q → Option (Mbuf × Q)
  pub qlen : Q → ℕ
  pub hdrsize : List ℕ → ℕ
  pub encap : Mbuf → Option Mbuf

pub data Endpoint : Type 0 where
  hi normal lo : Endpoint

-- The fields of the softc that the transmit path uses. `started` are the endpoints whose transfer
-- was started, the last one first.
pub record Tx (Q : Type 0) : Type 0 where
  pub mgmt_q : Q
  pub data_q : Q
  pub data_vo_q : Q
  pub pending_q : Q
  pub ptk_install_pending : Bool
  pub m4_needs_encap : Option ℕ
  pub stat_tx_drops : ℕ
  pub oerrors : ℕ
  pub pending_qlen_max : ℕ
  pub data_qlen_max : ℕ
  pub mgmt_qlen_max : ℕ
  pub started : List Endpoint

-- `m_copydata`: the bytes must be there.
abbrev pub copydata : List ℕ → (off len : ℕ) → Result (List ℕ)
copydata bytes off len =
    if leb (off + len) (length bytes) then ok (take len (drop off bytes)) else err undefined

abbrev byte : List ℕ → ℕ → ℕ
byte bytes i = get_or bytes i 0

unfoldable pub is_data : List ℕ → Bool
is_data bytes = bit_and (byte bytes 0) 0x0c == 0x08

-- AA AA 03 00 00 00 88 8E, of which the three zeros are not looked at.
pub is_snap_eapol : List ℕ → ℕ → Bool
is_snap_eapol bytes hdrlen =
    byte bytes hdrlen == 0xaa
    && byte bytes (hdrlen + 1) == 0xaa
    && byte bytes (hdrlen + 2) == 0x03
    && byte bytes (hdrlen + 6) == 0x88
    && byte bytes (hdrlen + 7) == 0x8e

abbrev key_info : List ℕ → Option ℕ
key_info eapol =
    if byte eapol 1 == 0x03 then some (bit_or (byte eapol 5 << 8) (byte eapol 6)) else none

abbrev key_info_of : Result (List ℕ) → Result (Option ℕ)
key_info_of (ok eapol) = ok (key_info eapol)
key_info_of (err e) = err e

-- The high-water mark of a queue.
abbrev longest : ℕ → ℕ → ℕ
longest l most = if ltb most l then l else most

-- The TID of a QoS data frame that is long enough for one; of others 0.
pub tid_of : List ℕ → ℕ
tid_of bytes =
    if has (byte bytes 0) 0x80 && leb 26 (length bytes) then bit_and (byte bytes 24) 0x07 else 0

abbrev is_some : Option ℕ → Bool
is_some none = false
is_some (some _) = true

-- A protected unicast data frame while the pairwise key is being installed.
pub is_gated : {Q : Type 0} → Tx Q → List ℕ → Bool
is_gated s bytes =
    is_data bytes
    && s.ptk_install_pending
    && leb 24 (length bytes)
    && (has (byte bytes 1) 0x40 && not (has (byte bytes 4) 0x01))

-- EAPOL and the TIDs from 4 on go to the voice queue.
pub is_voice : Option ℕ → List ℕ → Bool
is_voice eapol bytes = is_some eapol || leb 4 (tid_of bytes)

module _ {Q : Type 0} (net : Net Q) where
  -- The key information of an EAPOL-Key frame; of any other frame none.
  unfoldable pub eapol_key_info : List ℕ → Result (Option ℕ)
  eapol_key_info bytes =
      let hdrlen = net.hdrsize (take 18 bytes) in
      if ltb (length bytes) (24 + 8 + 7)
      then ok none
      else if not (is_data bytes)
      then ok none
      else if ltb (length bytes) (hdrlen + 8 + 7)
      then ok none
      else if not (is_snap_eapol bytes hdrlen)
      then ok none
      else key_info_of (copydata bytes (hdrlen + 8) 8)

  pub park : Mbuf → M (Tx Q) (Unit {0})
  park m = do
    s ← get
    elim (net.enqueue m s.pending_q) [
      | none ↦ do
        modify (λ (t : Tx Q). record t { stat_tx_drops = (t.stat_tx_drops + 1) % 2 ^ 64 })
        throw enobufs
      | some q ↦ modify (λ (t : Tx Q). record t {
        pending_q = q;
        pending_qlen_max = longest (net.qlen q) t.pending_qlen_max;
      })
    ]

  -- A queue that refuses a frame counts a drop and an output error.
  pub refuse : M (Tx Q) (Unit {0})
  refuse = do
    modify (λ (t : Tx Q). record t {
      stat_tx_drops = (t.stat_tx_drops + 1) % 2 ^ 64;
      oerrors = (t.oerrors + 1) % 2 ^ 64;
    })
    throw enobufs

  pub put_vo : Mbuf → M (Tx Q) (Unit {0})
  put_vo m = do
    s ← get
    elim (net.enqueue m s.data_vo_q) [
      | none ↦ refuse
      | some q ↦ modify (λ (t : Tx Q). record t { data_vo_q = q; started = normal ∷ t.started })
    ]

  pub put_be : Mbuf → M (Tx Q) (Unit {0})
  put_be m = do
    s ← get
    elim (net.enqueue m s.data_q) [
      | none ↦ refuse
      | some q ↦ modify (λ (t : Tx Q). record t {
        data_q = q;
        data_qlen_max = longest (net.qlen q) t.data_qlen_max;
        started = lo ∷ t.started;
      })
    ]

  pub put_mgmt : Mbuf → M (Tx Q) (Unit {0})
  put_mgmt m = do
    s ← get
    elim (net.enqueue m s.mgmt_q) [
      | none ↦ refuse
      | some q ↦ modify (λ (t : Tx Q). record t {
        mgmt_q = q;
        mgmt_qlen_max = longest (net.qlen q) t.mgmt_qlen_max;
        started = hi ∷ t.started;
      })
    ]

  pub put_data : Result (Option ℕ) → Mbuf → M (Tx Q) (Unit {0})
  put_data (err e) m = throw e
  put_data (ok eapol) m = if is_voice eapol m.bytes then put_vo m else put_be m

  pub route : Mbuf → M (Tx Q) (Unit {0})
  route m = if is_data m.bytes then put_data (eapol_key_info m.bytes) m else put_mgmt m

  pub tx_enqueue : Mbuf → M (Tx Q) (Unit {0})
  tx_enqueue m =
      if length m.bytes == 0 || ltb 0xffff (length m.bytes)
      then throw einval
      else if ltb 16384 (length m.bytes + 48)
      then throw emsgsize
      else do s ← get; if is_gated s m.bytes then park m else route m
