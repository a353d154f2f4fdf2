-- ===== src/Usb/Mailbox/Fields.antt =====
-- The fields of the command words, each read back from its place.
use rtw88_pub.Base.{
  ℕ, ◌+◌, ◌*◌, ◌/◌, ◌%◌, ◌^◌, ◌<◌, ◌≡◌, refl, ◌∙◌, ap, arith, Bool, true, false, bit_and, bit_or,
  bit_or_field, bit_and_low, ◌<<◌,
}
use rtw88_pub.Usb.Mailbox.{
  RaInfo, bit_of, wl_ch_info_msg, pwr_mode_lps_msg, media_status_report_msg, default_port_msg,
  ra_info_msg,
}

pub low_two : (x : ℕ) → bit_and x 0x3 ≡ x % 4
low_two x = bit_and_low 2 x

low_five : (x : ℕ) → bit_and x 0x1f ≡ x % 32
low_five x = bit_and_low 5 x

pub bit_of-lt : (b : Bool) → bit_of b < 2
bit_of-lt b = ground arith

-- One more field above the `k` bits that are filled.
pub add_field : (k q m r : ℕ) → r < 2 ^ k → m ≡ r → bit_or m (q << k) ≡ r + q * 2 ^ k
add_field k q m r h e = ap (λ n. bit_or n (q << k)) e ∙ bit_or_field k r q h

-- The fields of RA_INFO, as the layout in the source gives them.
pub ra_info_layout : RaInfo → ℕ
ra_info_layout r =
    0x40
    + r.mac_id * 2 ^ 8
    + r.rate_id % 32 * 2 ^ 16
    + r.init_ra_lvl % 4 * 2 ^ 21
    + bit_of r.sgi_en * 2 ^ 23
    + r.bw_mode % 4 * 2 ^ 24
    + bit_of r.ldpc_en * 2 ^ 26
    + bit_of r.no_update * 2 ^ 27
    + r.vht_en % 4 * 2 ^ 28
    + 1 * 2 ^ 30

ra_info_sum : (r : RaInfo) → r.mac_id < 2 ^ 8 → ra_info_msg r ≡ ra_info_layout r
unfolding ra_info_msg ra_info_layout
ra_info_sum r h =
    let sgi = bit_of-lt r.sgi_en in
    let ldpc = bit_of-lt r.ldpc_en in
    let still = bit_of-lt r.no_update in
    rw (low_five r.rate_id, low_two r.init_ra_lvl, low_two r.bw_mode, low_two r.vht_en)
      (add_field 30 1 _ _ (omega arith) (
        add_field 28 (r.vht_en % 4) _ _ (omega arith) (
          add_field 27 (bit_of r.no_update) _ _ (omega arith) (
            add_field 26 (bit_of r.ldpc_en) _ _ (omega arith) (
              add_field 24 (r.bw_mode % 4) _ _ (omega arith) (
                add_field 23 (bit_of r.sgi_en) _ _ (omega arith) (
                  add_field 21 (r.init_ra_lvl % 4) _ _ (omega arith) (
                    add_field 16 (r.rate_id % 32) _ _ (omega arith)
                      (add_field 8 r.mac_id 0x40 _ (omega arith) refl)))))))))

-- RA_INFO is one 32-bit word from which each field is read back at its documented place: the
-- command, the MAC id, the low five bits of the rate id, the low two of the level, the short-guard
-- flag, the low two bits of the bandwidth, the LDPC and no-update flags, the low two bits of the VHT
-- mode, and the set path-tracker flag.
pub ra_info_fields :
    (r : RaInfo)
    → r.mac_id < 2 ^ 8
    → let m = ra_info_msg r in
      (m < 2 ^ 32)
      × (m % 2 ^ 8 ≡ 0x40)
      × (m / 2 ^ 8 % 2 ^ 8 ≡ r.mac_id)
      × (m / 2 ^ 16 % 2 ^ 5 ≡ r.rate_id % 32)
      × (m / 2 ^ 21 % 2 ^ 2 ≡ r.init_ra_lvl % 4)
      × (m / 2 ^ 23 % 2 ≡ bit_of r.sgi_en)
      × (m / 2 ^ 24 % 2 ^ 2 ≡ r.bw_mode % 4)
      × (m / 2 ^ 26 % 2 ≡ bit_of r.ldpc_en)
      × (m / 2 ^ 27 % 2 ≡ bit_of r.no_update)
      × (m / 2 ^ 28 % 2 ^ 2 ≡ r.vht_en % 4)
      × (m / 2 ^ 30 % 2 ≡ 1)
unfolding ra_info_layout
ra_info_fields r h =
    omega (arith, ra_info_sum r h, bit_of-lt r.sgi_en, bit_of-lt r.ldpc_en, bit_of-lt r.no_update)

-- The bytes of the three-byte commands: what the firmware finds behind the command byte.
pub command_bytes :
    (a b c : ℕ)
    → a < 2 ^ 8
    → b < 2 ^ 8
    → c < 2 ^ 8
    → (wl_ch_info_msg a b c ≡ 0x66 + a * 2 ^ 8 + b * 2 ^ 16 + c * 2 ^ 24)
      × (default_port_msg a b ≡ 0x2c + a * 2 ^ 8 + b * 2 ^ 16)
      × (pwr_mode_lps_msg a ≡ 0x20 + 1 * 2 ^ 8 + 0x21 * 2 ^ 16 + a * 2 ^ 24)
      × (media_status_report_msg a true ≡ 0x01 + 1 * 2 ^ 8 + a * 2 ^ 16)
      × (media_status_report_msg a false ≡ 0x01 + a * 2 ^ 16)
unfolding wl_ch_info_msg default_port_msg pwr_mode_lps_msg media_status_report_msg
command_bytes a b c ha hb hc = (
  add_field 24 c _ _ (omega arith)
      (add_field 16 b _ _ (omega arith) (add_field 8 a 0x66 _ (omega arith) refl)),
  add_field 16 b _ _ (omega arith) (add_field 8 a 0x2c _ (omega arith) refl),
  add_field 24 a _ _ (omega arith) refl ∙ omega arith,
  add_field 16 a _ _ (omega arith) refl,
  add_field 16 a _ _ (omega arith) refl ∙ omega arith,
)
