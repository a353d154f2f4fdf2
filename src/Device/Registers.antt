-- ===== src/Device/Registers.antt =====
-- What the driver relies on of a plain 32-bit register, and `rtw_rmw32` over one.
use rtw88_pub.Base.{
  ℕ, ◌<◌, ◌^◌, ◌≡◌, refl, ok, bit_and, bit_or, not32, testb, testb-merge, merge-lt, if◌then◌else◌,
}
use rtw88_pub.Device.{HciOps, Dev, rtw_rmw32}

-- A register that reads back what was last written. An access may have other effects, such as a
-- seal written elsewhere, but not on the register's value. The adapter is not modelled, so this is
-- a hypothesis where a property needs it.
pub record Register32 {B : Type 0} (hci : HciOps B) (a : ℕ) : Type 0 where
  pub value : B → ℕ
  pub after : ℕ → B → B
  pub seen : B → B
  pub value-lt : (b : B) → value b < 2 ^ 32
  pub reads : (b : B) → hci.read32 a b ≡ (ok (value b), seen b)
  pub value-seen : (b : B) → value (seen b) ≡ value b
  pub writes : (v : ℕ) (b : B) → v < 2 ^ 32 → hci.write32 a v b ≡ (ok tt, after v b)
  pub value-after : (v : ℕ) (b : B) → v < 2 ^ 32 → value (after v b) ≡ v

module _ {B : Type 0} {hci : HciOps B} {a : ℕ} (reg : Register32 hci a) where
  abbrev merged : ℕ → ℕ → Dev B → ℕ
  merged mask val d = bit_or (bit_and (reg.value d.bus) (not32 mask)) (bit_and val mask)

  rtw_rmw32-run :
      (d : Dev B) (mask val : ℕ)
      → mask < 2 ^ 32
      → val < 2 ^ 32
      → rtw_rmw32 hci a mask val d
        ≡ (ok tt, record d { bus = reg.after (merged mask val d) (reg.seen d.bus) })
  unfolding rtw_rmw32
  rtw_rmw32-run d mask val hm hv =
      let fits = merge-lt 32 mask (reg.value d.bus) val hm (reg.value-lt d.bus) hv in
      rw (reg.reads d.bus, reg.writes (merged mask val d) (reg.seen d.bus) fits)

  -- Over such a register `rtw_rmw32` succeeds, sets exactly the bits of the mask to those of the
  -- value, keeps every other bit, and changes nothing else of the handle.
  pub rtw_rmw32-bits :
      (d : Dev B) (mask val : ℕ)
      → mask < 2 ^ 32
      → val < 2 ^ 32
      → ((rtw_rmw32 hci a mask val d).0 ≡ ok tt)
        × ((i : ℕ)
            → i < 32
            → testb (reg.value (rtw_rmw32 hci a mask val d).1.bus) i
              ≡ (if testb mask i then testb val i else testb (reg.value d.bus) i))
        × ((rtw_rmw32 hci a mask val d).1 ≡ record d { bus = (rtw_rmw32 hci a mask val d).1.bus })
  rtw_rmw32-bits d mask val hm hv =
      let fits = merge-lt 32 mask (reg.value d.bus) val hm (reg.value-lt d.bus) hv in
      rw (rtw_rmw32-run d mask val hm hv) (
        refl,
        λ i h.
            rw (reg.value-after (merged mask val d) (reg.seen d.bus) fits)
              (testb-merge 32 i mask (reg.value d.bus) val h hm),
        refl,
      )
