-- ===== src/Led.antt =====
-- sys/dev/rtw88/rtw88_led.c: the LED behind led(9). `created` is what `led_create` answers, which is
-- the kernel's.
pub mod Lamp
use rtw88_pub.Base.{
  ℕ, ◌^◌, Bool, true, false, not, Result, ok, err, enomem, M, ◌>>=◌, ◌>>◌, pure, throw, get, modify,
  attempt, ignore, bit_and, bit_or, not32, if◌then◌else◌,
}
use rtw88_pub.Device.{HciOps, LedState, Dev, rtw_read32, rtw_write32}

abbrev pub reg_led_cfg : ℕ
reg_led_cfg = 0x004c

-- Active-low.
abbrev pub bit_led0_sv : ℕ
bit_led0_sv = 2 ^ 27

pub led_word : Bool → ℕ → ℕ
led_word onoff v = if onoff then bit_and v (not32 bit_led0_sv) else bit_or v bit_led0_sv

module _ {B : Type 0} (hci : HciOps B) where
  -- What follows the read: nothing after an error, else the write, whose error is dropped.
  pub lamp : Bool → Result ℕ → M (Dev B) (Unit {0})
  lamp onoff (err e) = pure tt
  lamp onoff (ok v) = do
    ignore (rtw_write32 hci reg_led_cfg (led_word onoff v))
    modify (λ (d : Dev B). record d { led = record d.led { on = onoff } })

  pub led_callback : Bool → M (Dev B) (Unit {0})
  led_callback onoff = do
    d ← get
    elim d.led.attached [
      | false ↦ pure tt
      | true ↦ do r ← attempt (rtw_read32 hci reg_led_cfg); lamp onoff r
    ]

  pub led_set : Bool → M (Dev B) (Unit {0})
  led_set on = led_callback on

  pub led_attach : (created : Bool) → M (Dev B) (Unit {0})
  led_attach created = do
    d ← get
    elim d.chip.led_supported [
      | false ↦ pure tt
      | true ↦ elim created [
        | false ↦ do
          modify (λ (e : Dev B). record e { led = record e.led { cdev = false } })
          throw enomem
        | true ↦ do
          modify (λ (e : Dev B). record e { led = record e.led { cdev = true; attached = true } })
          led_set false
      ]
    ]

  -- `led_destroy` is the kernel's.
  pub led_detach : M (Dev B) (Unit {0})
  led_detach = do
    d ← get
    elim d.led.attached [
      | false ↦ pure tt
      | true ↦
          modify (λ (e : Dev B). record e { led = record e.led { cdev = false; attached = false } })
    ]
