-- ===== src/Usb/Tx/Transmit/Forms.antt =====
-- What the upgrade and the encryption make of a frame that is handed over for transmission.
use rtw88_pub.Base.{
  ℕ, ◌+◌, ◌≤◌, ◌<◌, ◌≡◌, ◌≢◌, refl, ap, ◌∙◌, ◌⊎◌, inl, inr, arith, Bool, true, false, not, ◌||◌,
  List, ◌∷◌, Option, none, some, Result, ok, err, Errno, undefined, ltb, has, bit_and, get_or, set,
  length, Bool-cases, Option-cases, ◌==◌, ◌&&◌, if◌then◌else◌, pure,
}
use rtw88_pub.Usb.Tx.{Mbuf, Net, Tx, eapol_key_info}
use rtw88_pub.Usb.Tx.Release.{encap_or_plain}
use rtw88_pub.Usb.Tx.Transmit.{
  Mbufs, Xmit, upgraded, protected, is_message4, move, widen, insert_qos, upgrade, upgrade_keyed,
  maybe_upgrade_eapol_qos, hold, encap_m4, encap_keyed, crypto_encap_if_needed,
}

module _ {Q : Type 0} (mbufs : Mbufs) (net : Net Q) where
  -- The look into a frame: an EAPOL key, another frame, or a read past its end.
  abbrev pub IsKey : List ℕ → ℕ → Type 0
  IsKey bytes key = eapol_key_info net bytes ≡ ok (some key)

  abbrev pub IsNoKey : List ℕ → Type 0
  IsNoKey bytes = eapol_key_info net bytes ≡ ok none

  abbrev pub IsPast : List ℕ → Type 0
  IsPast bytes = eapol_key_info net bytes ≡ err undefined

  -- The upgrade is on, and the frame is long enough for it.
  abbrev pub Looked : Xmit Q → Mbuf → Type 0
  Looked x m = (x.eapol_qos_upgrade ≡ true) × (36 ≤ length m.bytes)

  abbrev pub Unlooked : Xmit Q → Mbuf → Type 0
  Unlooked x m = (x.eapol_qos_upgrade ≡ false) ⊎ (length m.bytes < 36)

  -- The buffer of a whole frame with two bytes more.
  abbrev pub Widened : Mbuf → ℕ → Type 0
  Widened whole tag =
      ((2 ≤ mbufs.trailing_space whole) × (tag ≡ whole.tag))
      ⊎ ((mbufs.trailing_space whole < 2) × (mbufs.get2 (length whole.bytes + 2) ≡ some tag))

  -- What the upgrade makes of a frame: an EAPOL key becomes QoS data, every other frame stays.
  abbrev pub Wide : Xmit Q → Mbuf → Mbuf → Type 0
  Wide x m w =
      ((w ≡ m) × (Unlooked x m ⊎ (Looked x m × IsNoKey m.bytes)))
      ⊎ ((key : ℕ) × (whole : Mbuf) × (tag : ℕ) × Looked x m
          × IsKey m.bytes key
          × (mbufs.pullup m ≡ some whole)
          × Widened whole tag
          × (w ≡ record { tag = tag; bytes = upgraded whole.bytes }))

  -- There is no memory for the upgrade: the frame with this tag is lost.
  abbrev pub NoMemory : Xmit Q → Mbuf → ℕ → Type 0
  NoMemory x m tag =
      (key : ℕ) × Looked x m
      × IsKey m.bytes key
      × (((mbufs.pullup m ≡ none) × (tag ≡ m.tag))
          ⊎ ((whole : Mbuf) × (mbufs.pullup m ≡ some whole)
              × (mbufs.trailing_space whole < 2)
              × (mbufs.get2 (length whole.bytes + 2) ≡ none)
              × (tag ≡ whole.tag)))

  -- The encryption looks at the frame: it has a node, and its header is in the first buffer.
  abbrev pub Seen : Bool → Mbuf → Type 0
  Seen has_node w = (has_node ≡ true) × (24 ≤ mbufs.first_len w)

  abbrev pub Marked : Mbuf → Bool → Type 0
  Marked w b = has (get_or w.bytes 1 0) 0x40 ≡ b

  -- A fourth message of the handshake that is not marked yet.
  abbrev pub Message4 : Mbuf → Type 0
  Message4 w =
      (key : ℕ) × IsKey w.bytes key × (bit_and key 0x0300 ≡ 0x0300) × (bit_and key 0x0080 ≡ 0)

  abbrev pub OtherKey : Mbuf → Type 0
  OtherKey w =
      (key : ℕ) × IsKey w.bytes key × ((bit_and key 0x0300 ≢ 0x0300) ⊎ (bit_and key 0x0080 ≢ 0))

  -- A fourth message is encrypted, or where it cannot be, sent as it was while another one is held,
  -- else held: it is marked, and the gate is shut until its key is installed.
  abbrev pub Encrypted4 : Mbuf → Tx Q → Mbuf → Tx Q → Type 0
  Encrypted4 w s m' s' =
      ((net.encap (protected w) ≡ some m') × (s' ≡ s))
      ⊎ ((net.encap (protected w) ≡ none)
          × (((held : ℕ) × (s.m4_needs_encap ≡ some held)
                × (s' ≡ s)
                × (m' ≡ record w {
                  bytes = set (protected w).bytes 1 (bit_and (get_or (protected w).bytes 1 0) 0xbf);
                }))
              ⊎ ((s.m4_needs_encap ≡ none)
                  × (m' ≡ protected w)
                  × (s' ≡ record s { m4_needs_encap = some w.tag; ptk_install_pending = true }))))

  -- What the encryption makes of a frame, and of the transmit path.
  abbrev pub Ready : Bool → Mbuf → Tx Q → Mbuf → Tx Q → Type 0
  Ready has_node w s m' s' =
      ((m' ≡ w)
        × (s' ≡ s)
        × (((has_node ≡ false) ⊎ (mbufs.first_len w < 24))
            ⊎ (Seen has_node w × Marked w false × (IsNoKey w.bytes ⊎ OtherKey w))))
      ⊎ ((Seen has_node w × Marked w true × (net.encap w ≡ some m') × (s' ≡ s))
          ⊎ (Seen has_node w × Marked w false × Message4 w × Encrypted4 w s m' s'))

  upgrade_settles :
      (key : ℕ) (m : Mbuf) (x : Xmit Q) (whole : Option Mbuf)
      → Looked x m
      → IsKey m.bytes key
      → mbufs.pullup m ≡ whole
      → ((w : Mbuf) × (x' : Xmit Q) × (upgrade mbufs net whole m x ≡ (ok (some w), x'))
          × Wide x m w
          × (x'.tx ≡ x.tx)
          × (x'.freed ≡ x.freed))
        ⊎ ((tag : ℕ) × (x' : Xmit Q) × (upgrade mbufs net whole m x ≡ (ok none, x'))
            × NoMemory x m tag
            × (x'.tx ≡ x.tx)
            × (x'.freed ≡ tag ∷ x.freed))
  unfolding upgrade widen move insert_qos
  upgrade_settles key m x none looked is_key p =
      inr (m.tag, _, refl, (key, looked, is_key, inl (p, refl)), refl, refl)
  upgrade_settles key m x (some whole) looked is_key p =
      elim (Bool-cases (ltb (mbufs.trailing_space whole) 2)) [
        | inr roomy ↦ rw roomy (
            inl (
              _,
              _,
              refl,
              inr (
                key,
                whole,
                whole.tag,
                looked,
                is_key,
                p,
                inl (ground (arith, roomy), refl),
                refl,
              ),
              refl,
              refl,
            ))
        | inl full ↦
            let short : mbufs.trailing_space whole < 2 = ground (arith, full) in
            elim (Option-cases (mbufs.get2 (length whole.bytes + 2))) [
              | inl out_of ↦
                  rw (full, out_of)
                    (inr (
                      whole.tag,
                      _,
                      refl,
                      (key, looked, is_key, inr (whole, p, short, out_of, refl)),
                      refl,
                      refl,
                    ))
              | inr (tag, got) ↦
                  rw (full, got)
                    (inl (
                      _,
                      _,
                      refl,
                      inr (key, whole, tag, looked, is_key, p, inr (short, got), refl),
                      refl,
                      refl,
                    ))
            ]
      ]

  eapol_past : (bytes : List ℕ) (e : Errno) → eapol_key_info net bytes ≡ err e → e ≡ undefined
  unfolding eapol_key_info
  eapol_past bytes e h = ground (arith, h)

  -- The upgrade hands a frame on, has no memory for it, or reads past its end.
  abbrev pub Upgraded : Mbuf → Xmit Q → Result (Option Mbuf) × Xmit Q → Type 0
  Upgraded m x out =
      ((w : Mbuf) × (x' : Xmit Q) × (out ≡ (ok (some w), x'))
        × Wide x m w
        × (x'.tx ≡ x.tx)
        × (x'.freed ≡ x.freed))
      ⊎ (((tag : ℕ) × (x' : Xmit Q) × (out ≡ (ok none, x'))
            × NoMemory x m tag
            × (x'.tx ≡ x.tx)
            × (x'.freed ≡ tag ∷ x.freed))
          ⊎ ((out ≡ (err undefined, x)) × IsPast m.bytes))

  upgrade_keyed-Upgraded :
      (key : Result (Option ℕ)) (m : Mbuf) (x : Xmit Q)
      → eapol_key_info net m.bytes ≡ key
      → Looked x m
      → Upgraded m x (upgrade_keyed mbufs net key m x)
  unfolding upgrade_keyed
  upgrade_keyed-Upgraded (err e) m x h looked =
      let past = eapol_past m.bytes e h in
      inr (inr (ap (λ d. (err d, x)) past, h ∙ ap (λ d. err d) past))
  upgrade_keyed-Upgraded (ok none) m x h looked =
      inl (m, x, refl, inl (refl, inr (looked, h)), refl, refl)
  upgrade_keyed-Upgraded (ok (some key)) m x h looked =
      elim (upgrade_settles key m x (mbufs.pullup m) looked h refl) [
        | inl wide ↦ inl wide
        | inr lost ↦ inr (inl lost)
      ]

  pub maybe_upgrade_eapol_qos-Upgraded :
      (m : Mbuf) (x : Xmit Q) → Upgraded m x (maybe_upgrade_eapol_qos mbufs net m x)
  unfolding maybe_upgrade_eapol_qos
  maybe_upgrade_eapol_qos-Upgraded m x =
      elim (Bool-cases (not x.eapol_qos_upgrade || ltb (length m.bytes) 36)) [
        | inl off ↦
            let unlooked : Unlooked x m = ground (arith, off) in
            rw off (inl (m, x, refl, inl (refl, inl unlooked), refl, refl))
        | inr on ↦
            let looked : Looked x m = ground (arith, on) in
            rw on (upgrade_keyed-Upgraded (eapol_key_info net m.bytes) m x refl looked)
      ]

  -- The encryption hands a frame on, cannot encrypt it, or reads past its end.
  abbrev pub Encrypts : Bool → Mbuf → Xmit Q → Result (Option Mbuf) × Xmit Q → Type 0
  Encrypts has_node w x out =
      ((m' : Mbuf) × (x' : Xmit Q) × (out ≡ (ok (some m'), x'))
        × Ready has_node w x.tx m' x'.tx
        × (x'.freed ≡ x.freed))
      ⊎ (((out ≡ (ok none, x)) × Seen has_node w × Marked w true × (net.encap w ≡ none))
          ⊎ ((out ≡ (err undefined, x)) × IsPast w.bytes))

  abbrev Handed4 : Mbuf → Xmit Q → Result (Option Mbuf) × Xmit Q → Type 0
  Handed4 w x out =
      (m' : Mbuf) × (x' : Xmit Q) × (out ≡ (ok (some m'), x'))
      × Encrypted4 w x.tx m' x'.tx
      × (x'.freed ≡ x.freed)

  hold-Handed4 :
      (slot : Option ℕ) (w : Mbuf) (x : Xmit Q)
      → x.tx.m4_needs_encap ≡ slot
      → net.encap (protected w) ≡ none
      → Handed4 w x (hold mbufs net slot (protected w) x)
  unfolding hold encap_or_plain
  hold-Handed4 (some held) w x h failed =
      (_, _, refl, inr (failed, inl (held, h, refl, refl)), refl)
  hold-Handed4 none w x h failed = (_, _, refl, inr (failed, inr (h, refl, refl)), refl)

  encap_m4-Handed4 :
      (encrypted : Option Mbuf) (w : Mbuf) (x : Xmit Q)
      → net.encap (protected w) ≡ encrypted
      → Handed4 w x (encap_m4 mbufs net encrypted (protected w) x)
  unfolding encap_m4
  encap_m4-Handed4 (some m') w x h = (m', x, refl, inl (h, refl), refl)
  encap_m4-Handed4 none w x h = hold-Handed4 x.tx.m4_needs_encap w x refl h

  encap_keyed-Encrypts :
      (has_node : Bool) (key : Result (Option ℕ)) (w : Mbuf) (x : Xmit Q)
      → eapol_key_info net w.bytes ≡ key
      → Seen has_node w
      → Marked w false
      → Encrypts has_node w x (encap_keyed mbufs net key w x)
  unfolding encap_keyed is_message4
  encap_keyed-Encrypts has_node (err e) w x h seen clear =
      let past = eapol_past w.bytes e h in
      inr (inr (ap (λ d. (err d, x)) past, h ∙ ap (λ d. err d) past))
  encap_keyed-Encrypts has_node (ok none) w x h seen clear =
      inl (w, x, refl, inl (refl, refl, inr (seen, clear, inl h)), refl)
  encap_keyed-Encrypts has_node (ok (some key)) w x h seen clear =
      elim (Bool-cases (bit_and key 0x0300 == 0x0300 && bit_and key 0x0080 == 0)) [
        | inl m4 ↦
            let (m', x', e, done, f) = encap_m4-Handed4 (net.encap (protected w)) w x refl in
            let bits : (bit_and key 0x0300 ≡ 0x0300) × (bit_and key 0x0080 ≡ 0) =
              ground (arith, m4) in
            rw m4 (inl (m', x', e, inr (inr (seen, clear, (key, h, bits.0, bits.1), done)), f))
        | inr other ↦
            let bits : (bit_and key 0x0300 ≢ 0x0300) ⊎ (bit_and key 0x0080 ≢ 0) =
              ground (arith, other) in
            rw other
              (inl (w, x, refl, inl (refl, refl, inr (seen, clear, inr (key, h, bits))), refl))
      ]

  Marked-Encrypts :
      (has_node : Bool) (encrypted : Option Mbuf) (w : Mbuf) (x : Xmit Q)
      → net.encap w ≡ encrypted
      → Seen has_node w
      → Marked w true
      → Encrypts has_node w x (ok encrypted, x)
  Marked-Encrypts has_node none w x h seen marked = inr (inl (refl, seen, marked, h))
  Marked-Encrypts has_node (some m') w x h seen marked =
      inl (m', x, refl, inr (inl (seen, marked, h, refl)), refl)

  Seen-Encrypts :
      (has_node marked : Bool) (w : Mbuf) (x : Xmit Q)
      → Marked w marked
      → Seen has_node w
      → Encrypts has_node w x (
          (if marked
              then pure (net.encap w)
              else encap_keyed mbufs net (eapol_key_info net w.bytes) w)
            x)
  Seen-Encrypts has_node true w x h seen = Marked-Encrypts has_node (net.encap w) w x refl seen h
  Seen-Encrypts has_node false w x h seen =
      encap_keyed-Encrypts has_node (eapol_key_info net w.bytes) w x refl seen h

  pub crypto_encap_if_needed-Encrypts :
      (has_node : Bool) (w : Mbuf) (x : Xmit Q)
      → Encrypts has_node w x (crypto_encap_if_needed mbufs net has_node w x)
  unfolding crypto_encap_if_needed
  crypto_encap_if_needed-Encrypts has_node w x =
      elim (Bool-cases (not has_node || ltb (mbufs.first_len w) 24)) [
        | inl plain ↦
            let unseen : (has_node ≡ false) ⊎ (mbufs.first_len w < 24) = ground (arith, plain) in
            rw plain (inl (w, x, refl, inl (refl, refl, inl unseen), refl))
        | inr looked ↦
            let seen : Seen has_node w = ground (arith, looked) in
            rw looked (Seen-Encrypts has_node (has (get_or w.bytes 1 0) 0x40) w x refl seen)
      ]
