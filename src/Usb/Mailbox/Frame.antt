-- ===== src/Usb/Mailbox/Frame.antt =====
-- The part of the softc that mailbox commands leave alone.
use rtw88_pub.Base.{
  ℕ, ◌+◌, Bool, bit_and, Preserves, Preserves-bind, Preserves-seq, Preserves-get, Preserves-poll,
}
use rtw88_pub.Usb.Softc.{UsbDevice, Softc}
use rtw88_pub.Usb.Io.Access.{OffIo, Preserves-read1, Preserves-write4}
use rtw88_pub.Usb.Mailbox.{h2c_mailbox, h2c_ra_info, h2c_pwr_mode_active, RaInfo}

-- A property that does not look at what a mailbox command changes.
pub record OffMailbox {κ} {W : Type 0} (P : Softc W → Type κ) : Type κ where
  pub blind :
      (sc : Softc W) (w : W) (busy : Bool) (errors next : ℕ)
      → P sc
      → P (record sc { world = w; io_busy = busy; stat_usb_errors = errors; h2c_box_next = next })

module _ {κ} {W : Type 0} {P : Softc W → Type κ} (off : OffMailbox P) (usb : UsbDevice W) where
  OffMailbox-OffIo : OffIo P
  OffMailbox-OffIo = record {
    blind = λ sc w busy errors p. off.blind sc w busy errors sc.h2c_box_next p;
  }

  pub Preserves-h2c_mailbox : (msg ext : ℕ) → Preserves P (h2c_mailbox usb msg ext)
  unfolding h2c_mailbox
  Preserves-h2c_mailbox msg ext =
      let io = OffMailbox-OffIo in
      Preserves-bind Preserves-get λ sc.
        Preserves-bind (Preserves-poll 30 _ _ (Preserves-read1 io usb _)) λ tfr.
          Preserves-seq (Preserves-write4 io usb _ _) (
            Preserves-seq (Preserves-write4 io usb _ _) (record {
              keeps = λ (s : Softc W) p.
                  off.blind s s.world s.io_busy s.stat_usb_errors (bit_and (s.h2c_box_next + 1) 0x3)
                    p;
            }))

  pub Preserves-h2c_ra_info : (r : RaInfo) (mask : ℕ) → Preserves P (h2c_ra_info usb r mask)
  unfolding h2c_ra_info
  Preserves-h2c_ra_info r mask = Preserves-h2c_mailbox _ mask

  pub Preserves-h2c_pwr_mode_active : Preserves P (h2c_pwr_mode_active usb)
  unfolding h2c_pwr_mode_active
  Preserves-h2c_pwr_mode_active = Preserves-h2c_mailbox _ _
