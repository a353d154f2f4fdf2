-- ===== src/Usb/Tx/Drain.antt =====
-- if_rtw88_usb.c: a frame leaves its queue for the bulk pipe, rtw88_bulk_tx_drain_q, with the transmit
-- descriptor in front of it. The radiotap header and the trace are left out.
pub mod Words
pub mod Sent
pub mod Lined
use rtw88_pub.Base.{
  ℕ, ◌+◌, ◌-◌, ◌*◌, ◌/◌, ◌%◌, ◌^◌, Bool, true, false, ◌&&◌, ◌||◌, List, [], ◌∷◌, ◌++◌, Option, none,
  some, Result, ok, err, M, ◌>>=◌, ◌>>◌, pure, throw, get, modify, when, bit_and, bit_or, u16,
  not32, has, ltb, leb, ◌==◌, ◌<<◌, ◌>>>◌, if◌then◌else◌, length, take, drop, set, get_or,
  replicate, le16dec, le32dec, le16enc, le32enc,
}
use rtw88_pub.Usb.Mailbox.{bit_of}
use rtw88_pub.Usb.Tx.{Mbuf, Net, is_data, eapol_key_info}
use rtw88_pub.Usb.Firmware.Packet.{tx_bufsz, tx_pkt_desc_sz, fill_checksum}

-- What the driver asks of net80211's node of a frame (its peer is HT, a block-ack session runs for a
-- TID), and the tunables `rtw88_ampdu_density` and `rtw88_ampdu_max_num`.
pub record Peers : Type 0 where
  pub is_ht : Mbuf → Bool
  pub is_aggr_running : Mbuf → ℕ → Bool
  pub ampdu_density : ℕ
  pub ampdu_max_num : ℕ

-- The fields of the softc that a drain uses, the queue and the place for the frame on its way.
-- `submitted` are the transfers that were handed to the USB stack and `freed` the frames that were given
-- back with `m_freem`, the last one first.
pub record Drain (Q : Type 0) : Type 0 where
  pub queue : Q
  pub inflight : Option Mbuf
  pub ampdu : Bool
  pub rate_id : ℕ
  pub tx_report_sn : ℕ
  pub tx_seq : ℕ
  pub submitted : List (List ℕ)
  pub freed : List Mbuf

abbrev byte : List ℕ → ℕ → ℕ
byte bytes i = get_or bytes i 0

unfoldable pub tx_use_ampdu : Peers → Bool → Mbuf → Bool
tx_use_ampdu peers ampdu m =
    let tid = bit_and (byte m.bytes 24) 0x0f in
    ampdu
    && leb 26 (length m.bytes)
    && (bit_and (byte m.bytes 0) 0x8c == 0x88)
    && peers.is_ht m
    && ltb tid 16
    && peers.is_aggr_running m tid

-- The words 0 to 9 of a descriptor, of which 5 and 7 are zero, and eight bytes more.
abbrev words : (w0 w1 w2 w3 w4 w6 w8 w9 : ℕ) → List ℕ
words w0 w1 w2 w3 w4 w6 w8 w9 =
    le32enc w0
    ++ le32enc w1
    ++ le32enc w2
    ++ le32enc w3
    ++ le32enc w4
    ++ le32enc 0
    ++ le32enc w6
    ++ le32enc 0
    ++ le32enc w8
    ++ le32enc w9
    ++ replicate 8 0

-- The size, the offset, LS, and BMC where the receiver is a group.
abbrev size_word : (framelen : ℕ) (bmc : Bool) → ℕ
size_word framelen bmc =
    bit_or (bit_or (bit_or (bit_and framelen 0xffff) (tx_pkt_desc_sz << 16)) (2 ^ 26))
      (bit_of bmc << 24)

-- EAPOL goes to voice, QoS data by its TID, other data to best effort.
pub qsel_of : (eapol : Bool) (framelen : ℕ) → List ℕ → ℕ
qsel_of eapol framelen bytes =
    if eapol
    then 7
    else if has (byte bytes 0) 0x80 && leb 26 framelen
    then bit_and (byte bytes 24) 0x07
    else 2

unfoldable pub data_txdesc :
    Peers → (ampdu : Bool) (rate_id sn : ℕ) (eapol : Bool) (framelen : ℕ) → Mbuf → List ℕ
unfolding tx_use_ampdu qsel_of
data_txdesc peers ampdu rate_id sn eapol framelen m =
    let seq = if leb 24 framelen then bit_and (le16dec m.bytes 22 >>> 4) 0xfff else 0 in
    let aggregated = tx_use_ampdu peers ampdu m in
    let agg = if aggregated then bit_or (2 ^ 12) (bit_and peers.ampdu_density 0x7 << 20) else 0 in
    words (size_word framelen (leb 10 framelen && has (byte m.bytes 4) 0x01))
      (bit_or (qsel_of eapol framelen m.bytes << 8) (rate_id << 16))
      (bit_or agg (bit_of eapol << 19))
      (if aggregated then bit_and peers.ampdu_max_num 0x1f << 17 else 0) 4
      (if eapol then bit_and (sn << 2) 0xfc else 0) 0 (seq << 12)

unfoldable pub mgmt_txdesc : (framelen : ℕ) → List ℕ → List ℕ
mgmt_txdesc framelen bytes =
    words (bit_or (size_word framelen (leb 10 framelen && has (byte bytes 4) 0x01)) (2 ^ 31))
      (bit_or (0x12 << 8) (8 << 16)) 0x00080000 (bit_or (2 ^ 8) (2 ^ 10)) 0 0x38 0x8000 0

-- Plain data becomes QoS data, two bytes longer, where the buffer has room for it.
unfoldable pub is_promoted : (framelen : ℕ) → List ℕ → Bool
is_promoted framelen frame =
    is_data frame
    && leb 24 framelen
    && (bit_and (byte frame 0) 0xf0 == 0)
    && leb (framelen + 2 + tx_pkt_desc_sz) tx_bufsz

unfoldable pub promoted : (eapol : Bool) → List ℕ → List ℕ
promoted eapol frame =
    set (take 24 frame) 0 (bit_or (byte frame 0) 0x80)
    ++ (if eapol then 7 else 0) ∷ 0 ∷ drop 24 frame

-- `(w0 & ~0xFFFF) | (framelen & 0xFFFF)`, where `w0` is the first word of the descriptor.
unfoldable pub resized : (framelen : ℕ) → List ℕ → List ℕ
resized framelen desc =
    le32enc (bit_or (bit_and (le32dec desc 0) (not32 0xffff)) (bit_and framelen 0xffff))
    ++ drop 4 desc

-- A sequence number for a frame that has none.
unfoldable pub stamped : (tx_seq : ℕ) → List ℕ → List ℕ
stamped tx_seq frame = take 22 frame ++ le16enc (tx_seq << 4) ++ drop 24 frame

abbrev pub is_eapol : Option ℕ → Bool
is_eapol none = false
is_eapol (some _) = true

abbrev is_unnumbered : List ℕ → Bool
is_unnumbered frame = leb 24 (length frame) && (le16dec frame 22 == 0)

module _ {Q : Type 0} where
  -- `m_freem`, and nothing is submitted.
  unfoldable pub give_back : Mbuf → M (Drain Q) Bool
  give_back m = do modify (λ (d : Drain Q). record d { freed = m ∷ d.freed }); pure false

  -- The frame as it goes on air, behind its descriptor.
  unfoldable pub submit_frame : Mbuf → (desc frame : List ℕ) → M (Drain Q) Bool
  unfolding fill_checksum
  submit_frame m desc frame = do
    when (is_unnumbered frame)
        (modify (λ (d : Drain Q). record d { tx_seq = bit_and (d.tx_seq + 1) 0x0fff }))
    d ← get
    let numbered = if is_unnumbered frame then stamped d.tx_seq frame else frame
    modify (λ (d' : Drain Q). record d' {
      inflight = some m;
      submitted = (fill_checksum desc ++ numbered) ∷ d'.submitted;
    })
    pure true

  unfoldable pub submit_promoted : Mbuf → (eapol : Bool) → (desc frame : List ℕ) → M (Drain Q) Bool
  submit_promoted m eapol desc frame = elim (is_promoted (length frame) frame) [
    | true ↦ submit_frame m (resized (length frame + 2) desc) (promoted eapol frame)
    | false ↦ submit_frame m desc frame
  ]

module _ {Q : Type 0} (net : Net Q) (peers : Peers) where
  unfoldable pub drain_keyed : Result (Option ℕ) → Mbuf → M (Drain Q) Bool
  drain_keyed (err e) m = throw e
  drain_keyed (ok info) m = do
    let eapol = is_eapol info
    let framelen = u16 (length m.bytes)
    when (is_data m.bytes && eapol)
        (modify (λ (d : Drain Q). record d { tx_report_sn = (d.tx_report_sn + 1) % 2 ^ 8 }))
    d ← get
    let desc =
        if is_data m.bytes
        then data_txdesc peers d.ampdu d.rate_id d.tx_report_sn eapol framelen m
        else mgmt_txdesc framelen m.bytes
    submit_promoted m eapol desc (take framelen m.bytes)

  -- A frame that is empty or does not fit is freed. The length is cut to 16 bits.
  unfoldable pub drain_frame : Mbuf → M (Drain Q) Bool
  drain_frame m =
      let framelen = u16 (length m.bytes) in
      if (framelen == 0) || ltb tx_bufsz (framelen + tx_pkt_desc_sz)
      then give_back m
      else drain_keyed (eapol_key_info net m.bytes) m

  -- Whether a frame was submitted.
  unfoldable pub drain_q : M (Drain Q) Bool
  drain_q = do
    d ← get
    elim (net.dequeue d.queue) [
      | none ↦ pure false
      | some (m, q) ↦ do modify (λ (d' : Drain Q). record d' { queue = q }); drain_frame m
    ]
