-- ===== src/Led/Lamp.antt =====
-- The LED's register and its record.
use rtw88_pub.Base.{
  ℕ, ◌<◌, ◌^◌, ◌≡◌, refl, arith, Bool, true, false, not, testb, if◌then◌else◌, ◌-◌, ◌==◌, testb-and,
  testb-or, testb-not, bit_or-lt, bit_and-lt, testb-pow,
}
use rtw88_pub.Device.{HciOps, LedState, Dev, rtw_read32, rtw_write32}
use rtw88_pub.Device.Registers.{Register32}
use rtw88_pub.Led.{reg_led_cfg, led_word, lamp, led_callback, led_set, led_attach, led_detach}

-- A device node exists exactly while the subsystem is attached.
abbrev pub IsLed : LedState → Type 0
IsLed led = led.cdev ≡ led.attached

module _ {B : Type 0} (hci : HciOps B) where
  -- Whatever the bus does, the device node exists exactly while the subsystem is attached: an
  -- attach, which may fail to create the node, a switch and a detach keep that.
  pub led-IsLed :
      (d : Dev B)
      → IsLed d.led
      → (d.led.attached ≡ false → (created : Bool) → IsLed (led_attach hci created d).1.led)
        × ((on : Bool) → IsLed (led_set hci on d).1.led)
        × IsLed (led_detach hci d).1.led
  unfolding led_attach led_set led_callback lamp led_detach rtw_read32 rtw_write32
  led-IsLed d w = (λ off created. ground arith, λ on. ground arith, ground arith)

testb-led_word :
    (on : Bool) (v i : ℕ)
    → i < 32
    → v < 2 ^ 32
    → testb (led_word on v) i ≡ (if i == 27 then not on else testb v i)
unfolding led_word
testb-led_word true v i h k = ground (
  arith,
  testb-and i v (2 ^ 32 - 1 - 2 ^ 27),
  testb-not 32 i (2 ^ 27) h (omega arith),
  testb-pow 27 i,
)
testb-led_word false v i h k = ground (arith, testb-or i v (2 ^ 27), testb-pow 27 i)

led_word-lt : (on : Bool) (v : ℕ) → v < 2 ^ 32 → led_word on v < 2 ^ 32
unfolding led_word
led_word-lt true v k = bit_and-lt 32 v _ k
led_word-lt false v k = bit_or-lt 32 v _ k (omega arith)

module _ {B : Type 0} {hci : HciOps B} (reg : Register32 hci reg_led_cfg) where
  -- Over a plain register, an attached LED that is switched has its bit, which is active-low, follow
  -- the switch and every other bit kept, and the handle records the switch.
  pub led_set-bits :
      (on : Bool) (d : Dev B)
      → d.led.attached ≡ true
      → let d' = (led_set hci on d).1 in
        ((i : ℕ)
          → i < 32
          → testb (reg.value d'.bus) i ≡ (if i == 27 then not on else testb (reg.value d.bus) i))
        × (d'.led.on ≡ on)
  unfolding led_set led_callback lamp rtw_read32 rtw_write32
  led_set-bits on d h =
      let word = led_word on (reg.value d.bus) in
      let fits = led_word-lt on (reg.value d.bus) (reg.value-lt d.bus) in
      rw (h, reg.reads d.bus, reg.writes word (reg.seen d.bus) fits)
        (
          λ i k.
              rw (reg.value-after word (reg.seen d.bus) fits)
                (testb-led_word on (reg.value d.bus) i k (reg.value-lt d.bus)),
          refl,
        )
