-- ===== src/Usb/Radio/Param/Missing.antt =====
-- The set-up of the radio where firmware(9) has no tables.
use rtw88_pub.Base.{
  ◌>>◌, ℕ, ◌+◌, ◌≡◌, refl, inl, inr, ◌⊎◌, true, List, [], ◌∷◌, none, err, Errno, eio, enoent,
  Result, Preserves, Preserves-bind, Preserves-pure, Careful, conduct, Careful-test, Careful-get,
  Careful-bind, Ends, Ends-bind, Ends-stop, Ends-get, has, subst, sym,
}
use rtw88_pub.Usb.Softc.{UsbDevice, Softc}
use rtw88_pub.Usb.Io.{read1, write1, write4, update4}
use rtw88_pub.Usb.Io.Access.{OffIo, Preserves-read4}
use rtw88_pub.Usb.Io.Conduct.{Careful-read1, Careful-write1, Careful-write4, Careful-update4}
use rtw88_pub.Usb.Phy.{
  cond_start, cond_bit_pos, cond_bit_neg, Cond, on_branch, on_check, kind_bb, phy_apply, walk_from,
  phy_walk_table, phy_replay_rf_a,
}
use rtw88_pub.Usb.Phy.MacTable.{mac_tbl, load_entries, load_mac_tbl}
use rtw88_pub.Usb.Radio.Rf.{read_rf_a}
use rtw88_pub.Usb.Radio.Param.{
  has_agc_btg, power_blocks, load_tbl, canary, replay, agc_btg, finish_param, phy_set_param,
}

abbrev pub IsMissing : Errno → Type 0
IsMissing e = (e ≡ eio) ⊎ (e ≡ enoent)

module _ {W : Type 0} (rfe : ℕ) (usb : UsbDevice W) where
  abbrev Board : Softc W → Type 0
  Board s = s.ids.rfe_option ≡ rfe

  off : OffIo Board
  off = record { blind = λ sc w busy errors p. p }

  abbrev Safe : {A : Type 0} → (Softc W → Result A × Softc W) → Type 0
  Safe m = Careful IsMissing Board m

  read1-Safe : (addr : ℕ) → Safe (read1 usb addr)
  read1-Safe = Careful-read1 (inl refl) off usb

  write1-Safe : (addr val : ℕ) → Safe (write1 usb addr val)
  write1-Safe = Careful-write1 (inl refl) off usb

  write4-Safe : (addr val : ℕ) → Safe (write4 usb addr val)
  write4-Safe = Careful-write4 (inl refl) off usb

  update4-Safe : (addr : ℕ) (change : ℕ → ℕ) → Safe (update4 usb addr change)
  update4-Safe = Careful-update4 (inl refl) off usb

  power_blocks-Safe : Safe (power_blocks usb)
  unfolding power_blocks
  power_blocks-Safe = search (conduct, read1-Safe, write1-Safe, update4-Safe) depth 16

  load_entries-Safe : (entries : List (ℕ × ℕ)) → Safe (load_entries usb entries)
  unfolding load_entries
  load_entries-Safe [] = search conduct
  load_entries-Safe (e ∷ entries) = Careful-bind (write1-Safe _ _) λ _. load_entries-Safe entries

  read_rf_a-Board : (addr mask : ℕ) → Preserves Board (read_rf_a usb addr mask)
  unfolding read_rf_a
  read_rf_a-Board addr mask = Preserves-bind (Preserves-read4 off usb _) λ raw. Preserves-pure _

  canary-Safe : Safe (canary usb)
  unfolding canary
  canary-Safe = search (conduct, read_rf_a-Board) depth 16

  phy_apply-Safe : (addr val : ℕ) → Safe (phy_apply usb kind_bb addr val)
  unfolding phy_apply
  phy_apply-Safe addr val = search (conduct, write4-Safe)

  walk_from-Safe :
      (words : List ℕ) (c : Cond) (applied : ℕ) → Safe (walk_from usb kind_bb words c applied)
  unfolding walk_from
  walk_from-Safe [] c applied = search conduct
  walk_from-Safe (w0 ∷ []) c applied = search conduct
  walk_from-Safe (w0 ∷ w1 ∷ words) c applied =
      Careful-test (has w0 cond_bit_pos) (walk_from-Safe words (on_branch w0 c) applied) (
        Careful-test (has w0 cond_bit_neg)
          (Careful-bind Careful-get λ sc. walk_from-Safe words (on_check sc.ids c) applied)
          (Careful-test c.is_matched
            (Careful-bind (phy_apply-Safe w0 w1) λ _. walk_from-Safe words c (applied + 1))
            (walk_from-Safe words c applied)))

  phy_walk_table-Safe : (words : List ℕ) → Safe (phy_walk_table usb kind_bb words)
  unfolding phy_walk_table
  phy_walk_table-Safe words = walk_from-Safe words cond_start 0

  load_mac_tbl-Safe : Safe (load_mac_tbl usb)
  unfolding load_mac_tbl
  load_mac_tbl-Safe = load_entries-Safe mac_tbl

  replay-Ends : Ends IsMissing Board (λ _. ⊥) (replay usb none)
  unfolding replay phy_replay_rf_a
  replay-Ends = record { ends = λ s p. inl (enoent, refl, inr refl, p) }

  agc_btg-Ends : has_agc_btg rfe ≡ true → Ends IsMissing Board (λ _. ⊥) (agc_btg usb none rfe)
  unfolding agc_btg
  agc_btg-Ends shared = rw shared (Ends-bind (phy_walk_table-Safe _) λ applied. replay-Ends)

  phy_set_param-Ends :
      has_agc_btg rfe ≡ true → Ends IsMissing Board (λ _. ⊥) (phy_set_param usb none)
  unfolding phy_set_param load_tbl
  phy_set_param-Ends shared = Ends-bind power_blocks-Safe λ _. Ends-bind load_mac_tbl-Safe λ _.
      Ends-bind canary-Safe λ _.
        Ends-get
          {f = λ sc. agc_btg usb none sc.ids.rfe_option >> finish_param usb sc.radio.crystal_cap}
          λ s board.
            Ends-stop (λ _. finish_param usb s.radio.crystal_cap)
              (subst (λ r. Ends IsMissing Board (λ _. ⊥) (agc_btg usb none r)) (sym board)
                (agc_btg-Ends shared))

-- Without the blob of tables, the set-up of a radio whose board wants the AGC table (an RFE option
-- of 2 or 4) fails on every device and from every state, with EIO or ENOENT: the MAC table that is
-- built in is loaded, but there is no radio table to load a second time.
pub phy_set_param-missing :
    {W : Type 0} (usb : UsbDevice W) (s : Softc W)
    → has_agc_btg s.ids.rfe_option ≡ true
    → (e : Errno) × ((phy_set_param usb none s).0 ≡ err e) × ((e ≡ eio) ⊎ (e ≡ enoent))
phy_set_param-missing usb s shared =
    elim ((phy_set_param-Ends s.ids.rfe_option usb shared).ends s refl) [
      | inl (e, failed, missing, board) ↦ (e, failed, missing)
      | inr (done, never) ↦ absurd never
    ]
