-- ===== src/Usb/Rx/Bulk/Aggregate.antt =====
-- A transfer of several packets against the packets one by one.
use rtw88_pub.Base.{
  ℕ, zero, suc, ◌+◌, ◌-◌, ◌%◌, ◌≤◌, ◌<◌, ◌≡◌, refl, ap, ap₂, ◌∙◌, arith, Bool, true, false, ◌&&◌,
  ◌||◌, inl, inr, sym, modify, List, [], ◌∷◌, ◌++◌, M, ◌>>=◌, ◌>>◌, pure, when, ltb, leb, ◌==◌,
  if◌then◌else◌, length, drop, length-append, get_or-append_left, take-drop-append, drop-append,
  le32dec, All, bind_agree_on, bind_ext, bind_same, bind_assoc, throw, undefined,
}
use rtw88_pub.Usb.Rx.{
  RxStat, Rx, RxEnv, slice, word, stat_of, rx_desc_sz, pkt_offset, total, aligned, up,
}
use rtw88_pub.Usb.Rx.Bulk.Total.{rx_status-Returns, IsShown}
use rtw88_pub.Usb.Rx.C2h.{c2h_dispatch}
use rtw88_pub.Usb.Rx.Status.{query_phy_status}
use rtw88_pub.Usb.Rx.Frame.{rx_deliver}
use rtw88_pub.Usb.Rx.Bulk.{
  rx_error, rx_drop, rx_status, rx_take, rx_copy, rx_frame, rx_event, first_shift, is_noted, noted,
  note_shift, rx_body, rx_packet, rx_one, rx_loop, bulk_rx,
}

module _ (p rest : List ℕ) where
  -- Reads inside the first part see that part.
  slice-append : (off len : ℕ) → off + len ≤ length p → slice (p ++ rest) off len ≡ slice p off len
  unfolding slice
  slice-append off len h =
      ap₂ (λ (b : Bool) (bytes : List ℕ). if b then pure bytes else throw undefined)
        (ground (arith, length-append p rest)) (take-drop-append off len p rest h)

  word-append : (off : ℕ) → off + 4 ≤ length p → word (p ++ rest) off ≡ word p off
  unfolding word
  word-append off h =
      ap₂ (λ (b : Bool) (v : ℕ). if b then pure v else throw undefined)
        (ground (arith, length-append p rest))
        (omega (
          arith,
          get_or-append_left p rest off 0,
          get_or-append_left p rest (off + 1) 0,
          get_or-append_left p rest (off + 2) 0,
          get_or-append_left p rest (off + 3) 0,
        ))

if_agree :
    {A : Type 0} (b : Bool) (m n m' n' : M Rx A)
    → (b ≡ true → (s : Rx) → m s ≡ m' s)
    → ((s : Rx) → n s ≡ n' s)
    → (s : Rx) → (if b then m else n) s ≡ (if b then m' else n') s
if_agree true m n m' n' h k s = h refl s
if_agree false m n m' n' h k s = k s

module _ (env : RxEnv) (p rest : List ℕ) where
  rx_status-append :
      (st : RxStat)
      → total st ≤ length p
      → (s : Rx) → rx_status env (p ++ rest) st s ≡ rx_status env p st s
  unfolding rx_status
  rx_status-append st h =
      if_agree (st.phy_status && leb 16 st.drv_info_sz) _ _ _ _
        (λ e s.
          ap (λ m. (m >>= λ ps. pure (query_phy_status env.rfe_option ps st)) s)
            (slice-append p rest rx_desc_sz 16 (ground arith)))
        (λ s. refl)

  rx_take-append :
      (st : RxStat) → total st ≤ length p → rx_take env (p ++ rest) st ≡ rx_take env p st
  unfolding rx_take
  rx_take-append st h =
      ap (λ m. m >>= rx_deliver env st) (slice-append p rest (pkt_offset st) st.pkt_len h)

  rx_copy-append :
      (st : RxStat) → total st ≤ length p → rx_copy env (p ++ rest) st ≡ rx_copy env p st
  unfolding rx_copy
  rx_copy-append st h =
      ap (λ m s. (if env.m_get2 s st.pkt_len then m else rx_drop) s) (rx_take-append st h)

  rx_frame-append :
      (st : RxStat)
      → total st ≤ length p
      → (s : Rx) → rx_frame env (p ++ rest) st s ≡ rx_frame env p st s
  unfolding rx_frame
  rx_frame-append st h s =
      bind_same (rx_status env (p ++ rest) st) (rx_status env p st)
        (λ st'. if ltb 2048 st'.pkt_len then rx_drop else rx_copy env (p ++ rest) st') s
        (rx_status-append st h s)
      ∙ bind_agree_on (rx_status-Returns env p st h)
          (λ st' placed s'.
            ap (λ m. (if ltb 2048 st'.pkt_len then rx_drop else m) s')
              (rx_copy-append st' (omega (arith, placed.0, placed.1, placed.2))))
          s

  -- What is done with a packet does not look at what is behind it.
  rx_body-append :
      (st : RxStat)
      → total st ≤ length p
      → (s : Rx) → rx_body env (p ++ rest) st s ≡ rx_body env p st s
  unfolding rx_body rx_event
  rx_body-append st h =
      if_agree st.is_c2h _ _ _ _
        (λ e s. ap (λ m. (m >>= c2h_dispatch) s) (slice-append p rest (pkt_offset st) st.pkt_len h))
        (if_agree (st.pkt_len == 0) _ _ _ _ (λ _ s. refl)
          (if_agree st.crc_err _ _ _ _ (λ _ s. refl)
            (bind_ext (when st.icv_err rx_error) _ _ (λ _.
              if_agree (leb st.pkt_len 4) _ _ _ _ (λ _ s. refl)
                (rx_frame-append (record st { pkt_len = st.pkt_len - 4 }) (omega (arith, h)))))))

module _ (p rest : List ℕ) where
  first_shift-append :
      (st : RxStat) → pkt_offset st < length p → first_shift (p ++ rest) st ≡ first_shift p st
  unfolding first_shift
  first_shift-append st h =
      ap (λ m. modify (noted st) >> (m >>= λ byte. pure tt))
        (slice-append p rest (pkt_offset st) 1 (omega (arith, h)))

  note_shift-append :
      (st : RxStat) → IsShown p st → (s : Rx) → note_shift (p ++ rest) st s ≡ note_shift p st s
  unfolding note_shift
  note_shift-append st (inl none) s =
      let unshifted : (st.shift == 0) ≡ true = ground (arith, none) in rw unshifted refl
  note_shift-append st (inr h) s =
      ap (λ m. (if st.shift == 0 || is_noted st s then pure tt else m) s) (first_shift-append st h)

-- A packet: a descriptor, as many bytes behind it as it says, and fewer than eight to fill up the last
-- group of eight. With a shift, it has a byte behind it.
abbrev pub IsPacket : List ℕ → Type 0
IsPacket p =
    (24 ≤ length p)
    × (length p % 8 ≡ 0)
    × (total (stat_of p) ≤ length p)
    × (length p < total (stat_of p) + 8)
    × IsShown p (stat_of p)

unfoldable pub concat : List (List ℕ) → List ℕ
concat [] = []
concat (p ∷ ps) = p ++ concat ps

word-pure :
    (p rest : List ℕ) (off : ℕ) → off + 4 ≤ length p → word (p ++ rest) off ≡ pure (le32dec p off)
unfolding word
word-pure p rest off h =
    let inside : leb (off + 4) (length p) ≡ true = ground arith in
    word-append p rest off h
    ∙ ap (λ (b : Bool). if b then pure (le32dec p off) else throw undefined) inside

module _ (env : RxEnv) where
  -- A packet by itself.
  unfoldable pub rx_alone : List ℕ → M Rx (Unit {0})
  rx_alone p = do note_shift p (stat_of p); rx_body env p (stat_of p)

  rx_one-packet :
      (p rest : List ℕ)
      → IsPacket p
      → (s : Rx) → rx_one env (p ++ rest) s ≡ (rx_alone p >> pure (length p)) s
  unfolding rx_one rx_packet stat_of rx_alone
  rx_one-packet p rest (long, eights, fits, tight, shown) s =
      let whole : length p ≡ aligned (stat_of p) = omega (arith, eights, fits, tight) in
      let l0 : ltb (length (p ++ rest)) rx_desc_sz ≡ false = ground (arith, length-append p rest) in
      let l1 : ltb (length (p ++ rest)) (total (stat_of p)) ≡ false =
        ground (arith, length-append p rest) in
      let st = stat_of p in
      let body = rx_body env p st in
      rw
        (
          l0,
          word-pure p rest 0 (omega arith),
          word-pure p rest 8 (omega arith),
          word-pure p rest 12 (omega arith),
          word-pure p rest 16 (omega arith),
          word-pure p rest 20 (omega arith),
          l1,
        )
        (bind_same (note_shift (p ++ rest) st) (note_shift p st)
            (λ _. rx_body env (p ++ rest) st >> pure (aligned st)) s
            (note_shift-append p rest st shown s)
          ∙ bind_ext (note_shift p st) (λ _. rx_body env (p ++ rest) st >> pure (aligned st))
              (λ _. body >> pure (length p))
              (λ _ t.
                bind_same (rx_body env (p ++ rest) st) body (λ _. pure (aligned st)) t
                  (rx_body-append env p rest st fits t)
                ∙ ap (λ n. (body >> pure n) t) (sym whole))
              s
          ∙ sym (bind_assoc (note_shift p st) (λ _. body) (λ _. pure (length p)) s))

  -- The packets one by one.
  pub each_packet : List (List ℕ) → M Rx (Unit {0})
  each_packet [] = pure tt
  each_packet (p ∷ ps) = do rx_alone p; each_packet ps

  -- The loop behind one packet.
  abbrev onward : ℕ → List ℕ → ℕ → M Rx (Unit {0})
  onward fuel buf consumed = elim (consumed == 0) [
    | true ↦ pure tt
    | false ↦ rx_loop env fuel (drop consumed buf)
  ]

  onward-packet :
      (fuel : ℕ) (p rest : List ℕ)
      → IsPacket p
      → onward fuel (p ++ rest) (length p) ≡ rx_loop env fuel rest
  onward-packet fuel p rest packet =
      let some_bytes : (length p == 0) ≡ false = ground arith in
      ap₂ (λ b buf. elim b [ true ↦ pure tt | false ↦ rx_loop env fuel buf ]) some_bytes
        (drop-append p rest)

  rx_loop-cons :
      (fuel : ℕ) (p rest : List ℕ)
      → IsPacket p
      → (s : Rx)
      → rx_loop env (suc fuel) (p ++ rest) s
        ≡ (rx_one env (p ++ rest) >>= onward fuel (p ++ rest)) s
  unfolding rx_loop
  rx_loop-cons fuel [] rest packet s = absurd (omega (arith, packet.0))
  rx_loop-cons fuel (b ∷ p) rest packet s = refl

  rx_loop-packets :
      (fuel : ℕ) (ps : List (List ℕ))
      → length (concat ps) < fuel
      → All IsPacket ps
      → (s : Rx) → rx_loop env fuel (concat ps) s ≡ each_packet ps s
  unfolding rx_loop concat each_packet
  rx_loop-packets zero ps h packets s = absurd (omega arith)
  rx_loop-packets (suc fuel) [] h packets s = refl
  rx_loop-packets (suc fuel) (p ∷ ps) h packets s =
      let rest = concat ps in
      let body = rx_alone p in
      rx_loop-cons fuel p rest packets.0 s
      ∙ bind_same (rx_one env (p ++ rest)) (body >> pure (length p)) (onward fuel (p ++ rest)) s
          (rx_one-packet p rest packets.0 s)
      ∙ bind_assoc body (λ _. pure (length p)) (onward fuel (p ++ rest)) s
      ∙ bind_ext body _ (λ _. each_packet ps)
          (λ _ t.
            ap (λ m. m t) (onward-packet fuel p rest packets.0)
            ∙ rx_loop-packets fuel ps (omega (arith, length-append p rest, packets.0.0, h))
                packets.1 t)
          s

  -- A transfer that carries any packets, one behind the other and each padded to eight bytes, does to
  -- the state what the packets do one by one in their order, each seen by itself: none is lost, none
  -- is read twice and none sees the bytes of another. The transfer is assumed to fit the stage.
  pub bulk_rx-packets :
      (ps : List (List ℕ)) (s : Rx)
      → All IsPacket ps
      → length (concat ps) ≤ 32768
      → bulk_rx env (concat ps) s ≡ each_packet ps (record s { rx_packets = up s.rx_packets })
  unfolding bulk_rx
  bulk_rx-packets ps s packets h =
      let fits : ltb 32768 (length (concat ps)) ≡ false = ground arith in
      rw fits (
        rx_loop-packets (suc (length (concat ps))) ps (omega arith) packets
          (record s { rx_packets = up s.rx_packets }))
