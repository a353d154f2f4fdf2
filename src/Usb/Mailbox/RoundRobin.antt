-- ===== src/Usb/Mailbox/RoundRobin.antt =====
-- rtw88_h2c_mailbox: the order in which the boxes are used, and what a failure leaves.
use rtw88_pub.Base.{
  ℕ, zero, suc, ◌+◌, ◌%◌, ◌^◌, ◌<◌, ◌≡◌, refl, sym, ap, ◌∙◌, arith, false, not, List, [], ◌∷◌, ok,
  ebusy, M, ◌>>◌, pure, poll_hit, bit_and, bit_and_low, has, get_or, length, Triple, Triple-bind,
  Triple-Preserves, Preserves-poll, Preserves-get, le32enc, bind_ok, Post,
}
use rtw88_pub.Usb.Softc.{UsbDevice, Softc}
use rtw88_pub.Usb.Io.{addr_in_on_section, read1, write4}
use rtw88_pub.Usb.Io.Access.{
  OffIo, sealed, Preserves-read1, Preserves-write4, read_region_ok, write_region_ok,
}
use rtw88_pub.Usb.Mailbox.{reg_hmetfr, box_addr, box_ex_addr, h2c_mailbox}

module _ {W : Type 0} (usb : UsbDevice W) where
  -- The commands of a caller, one after the other.
  unfoldable pub send_all : List (ℕ × ℕ) → M (Softc W) (Unit {0})
  send_all [] = pure tt
  send_all ((msg, ext) ∷ rest) = do h2c_mailbox usb msg ext; send_all rest

  abbrev At : ℕ → Softc W → Type 0
  At next sc = sc.h2c_box_next ≡ next

  At-OffIo : (next : ℕ) → OffIo (At next)
  At-OffIo next = record { blind = λ sc w busy errors p. p }

  h2c_mailbox-At :
      (msg ext next : ℕ)
      → Triple (At next) (λ _. At (bit_and (next + 1) 0x3)) (λ _. At next) (h2c_mailbox usb msg ext)
  unfolding h2c_mailbox
  h2c_mailbox-At msg ext next =
      let off = At-OffIo next in
      Triple-bind (λ _. At next) (Triple-Preserves Preserves-get)
        λ sc.
          Triple-bind (λ _. At next)
            (Triple-Preserves (Preserves-poll 30 _ _ (Preserves-read1 off usb _)))
            λ tfr.
              Triple-bind (λ _. At next) (Triple-Preserves (Preserves-write4 off usb _ _))
                λ _.
                  Triple-bind (λ _. At next) (Triple-Preserves (Preserves-write4 off usb _ _))
                    λ _. record { runs = λ s p. ap (λ n. bit_and (n + 1) 0x3) p }

  -- A command that is sent moves on to the next of the four boxes; one that fails, for whatever
  -- reason, keeps the box for the next command.
  pub h2c_mailbox-next :
      (msg ext : ℕ) (sc : Softc W)
      → Post
          (λ _ (sc' : Softc W). sc'.h2c_box_next ≡ (sc.h2c_box_next + 1) % 4)
          (λ _ (sc' : Softc W). sc'.h2c_box_next ≡ sc.h2c_box_next)
          (h2c_mailbox usb msg ext sc).0
          (h2c_mailbox usb msg ext sc).1
  h2c_mailbox-next msg ext sc =
      rw (sym (bit_and_low 2 (sc.h2c_box_next + 1)))
        ((h2c_mailbox-At msg ext sc.h2c_box_next).runs sc refl)

  -- Commands that all succeed take the boxes in turn: `n` of them from box `b` on end at box
  -- `(b + n) % 4`.
  pub send_all-turn :
      (cmds : List (ℕ × ℕ)) (sc : Softc W)
      → sc.h2c_box_next < 4
      → (send_all cmds sc).0 ≡ ok tt
      → (send_all cmds sc).1.h2c_box_next ≡ (sc.h2c_box_next + length cmds) % 4
  unfolding send_all
  send_all-turn [] sc h k = omega arith
  send_all-turn ((msg, ext) ∷ rest) sc h k =
      let (_, sent, e) = bind_ok (h2c_mailbox usb msg ext) (λ _. send_all rest) sc k in
      let next = h2c_mailbox-next msg ext sc in
      let turn = rw sent at next in
      let sc' : Softc W = (h2c_mailbox usb msg ext sc).1 in
      rw e (
        omega
          (arith, turn, send_all-turn rest sc' (omega (arith, turn)) (ap (λ r. r.0) (sym e) ∙ k)))

  -- The boxes are outside the section that an access must seal.
  sealed_box :
      (i byte : ℕ) (w : W)
      → i < 4
      → (sealed usb (get_or box_ex_addr i 0) byte w ≡ w)
        × (sealed usb (get_or box_addr i 0) byte w ≡ w)
  unfolding addr_in_on_section
  sealed_box zero byte w h = (refl, refl)
  sealed_box (suc zero) byte w h = (refl, refl)
  sealed_box (suc (suc zero)) byte w h = (refl, refl)
  sealed_box (suc (suc (suc zero))) byte w h = (refl, refl)
  sealed_box (suc (suc (suc (suc i)))) byte w h = ground arith

  abbrev Unsealed : ℕ → Type 0
  Unsealed addr = (byte : ℕ) (w : W) → sealed usb addr byte w ≡ w

  read1_plain :
      (addr b : ℕ) (sc : Softc W) (w : W)
      → Unsealed addr
      → usb.vendor_read addr 1 sc.world ≡ (ok (b ∷ []), w)
      → read1 usb addr sc ≡ (ok b, record sc { world = w; io_busy = false })
  unfolding read1
  read1_plain addr b sc w plain h = rw (read_region_ok usb addr 1 sc (b ∷ []) w h) (rw plain refl)

  write4_plain :
      (addr v : ℕ) (sc : Softc W) (w : W)
      → Unsealed addr
      → usb.vendor_write addr (le32enc v) sc.world ≡ (ok tt, w)
      → write4 usb addr v sc ≡ (ok tt, record sc { world = w; io_busy = false })
  unfolding write4
  write4_plain addr v sc w plain h =
      rw (write_region_ok usb addr (le32enc v) sc w h) (rw plain refl)

  -- One command on the wire: when the first look at HMETFR shows the box free and the writes go
  -- through, the adapter sees that read, then the extension word, then the word that arms the
  -- chip, both in the box whose turn it is, and nothing else.
  pub h2c_mailbox-order :
      (msg ext tfr : ℕ) (sc : Softc W) (w1 w2 w3 : W)
      → usb.vendor_read reg_hmetfr 1 sc.world ≡ (ok (tfr ∷ []), w1)
      → has tfr (2 ^ (sc.h2c_box_next % 4)) ≡ false
      → usb.vendor_write (get_or box_ex_addr (sc.h2c_box_next % 4) 0) (le32enc ext) w1 ≡ (ok tt, w2)
      → usb.vendor_write (get_or box_addr (sc.h2c_box_next % 4) 0) (le32enc msg) w2 ≡ (ok tt, w3)
      → h2c_mailbox usb msg ext sc ≡ (
        ok tt,
        record sc { world = w3; io_busy = false; h2c_box_next = (sc.h2c_box_next + 1) % 4 },
      )
  unfolding h2c_mailbox addr_in_on_section
  h2c_mailbox-order msg ext tfr sc w1 w2 w3 hr free he hm =
      let i = sc.h2c_box_next % 4 in
      let turn : i < 4 = omega arith in
      let hit =
        poll_hit (read1 usb reg_hmetfr) (λ b. not (has b (2 ^ i))) ebusy 29 sc _ tfr
          (read1_plain reg_hmetfr tfr sc w1 (λ byte w. refl) hr) (ap not free) in
      let sent_ext =
        write4_plain (get_or box_ex_addr i 0) ext (record sc { world = w1; io_busy = false }) w2
          (λ byte w. (sealed_box i byte w turn).0) he in
      let sent =
        write4_plain (get_or box_addr i 0) msg (record sc { world = w2; io_busy = false }) w3
          (λ byte w. (sealed_box i byte w turn).1) hm in
      rw (bit_and_low 2 sc.h2c_box_next)
        (rw hit (rw sent_ext (rw sent (rw (bit_and_low 2 (sc.h2c_box_next + 1)) refl))))
