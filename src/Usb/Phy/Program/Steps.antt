-- ===== src/Usb/Phy/Program/Steps.antt =====
-- The walk over one pair of words, and over the entries of one branch.
use rtw88_pub.Base.{
  ℕ, ◌+◌, ◌≡◌, refl, sym, ◌∙◌, Bool, true, false, List, [], ◌∷◌, ◌++◌, All, ◌>>=◌, has, ◌==◌,
  Preserves, Preserves-pure, Preserves-seq, Preserves-if, Preserves-throw, bind_assoc, bind_ext,
  einval, u8, u16, ◌||◌,
}
use rtw88_pub.Usb.Softc.{UsbDevice, Softc}
use rtw88_pub.Usb.Io.Access.{OffIo, Preserves-write1, Preserves-write4}
use rtw88_pub.Usb.Phy.{
  cond_bit_pos, is_delay, kind_mac, kind_bb, kind_agc, kind_rf_a, sipi_command, Cond, on_branch,
  on_check, phy_apply, phy_write_rf_a, walk_from,
}
use rtw88_pub.Usb.Phy.Program.{apply_all, flat_entries, IsEntry, IsCheck}

abbrev pub cond_at : ℕ → Bool → Bool → Cond
cond_at pos matched skipped = record { pos_cond = pos; is_matched = matched; is_skipped = skipped }

module _ {W : Type 0} (usb : UsbDevice W) (kind : ℕ) where
  pub walk_branch :
      (e : ℕ × ℕ) (words : List ℕ) (c : Cond) (n : ℕ) (s : Softc W)
      → has e.0 cond_bit_pos ≡ true
      → walk_from usb kind (e.0 ∷ e.1 ∷ words) c n s
        ≡ walk_from usb kind words (on_branch e.0 c) n s
  unfolding walk_from
  walk_branch e words c n s h = rw (walk_from, h) refl

  pub walk_check :
      (e : ℕ × ℕ) (words : List ℕ) (c : Cond) (n : ℕ) (s : Softc W)
      → IsCheck e
      → walk_from usb kind (e.0 ∷ e.1 ∷ words) c n s
        ≡ walk_from usb kind words (on_check s.ids c) n s
  unfolding walk_from
  walk_check e words c n s h = rw (walk_from, h.0, h.1) refl

  pub walk_entries_off :
      (entries : List (ℕ × ℕ)) (rest : List ℕ) (pos : ℕ) (skipped : Bool) (n : ℕ) (s : Softc W)
      → All IsEntry entries
      → walk_from usb kind (flat_entries entries rest) (cond_at pos false skipped) n s
        ≡ walk_from usb kind rest (cond_at pos false skipped) n s
  unfolding walk_from flat_entries
  walk_entries_off [] rest pos skipped n s h = refl
  walk_entries_off (e ∷ entries) rest pos skipped n s h =
      rw (walk_from, h.0.0, h.0.1) (walk_entries_off entries rest pos skipped n s h.1)

  pub walk_entries_on :
      (entries : List (ℕ × ℕ)) (rest : List ℕ) (pos : ℕ) (skipped : Bool) (n : ℕ) (s : Softc W)
      → All IsEntry entries
      → walk_from usb kind (flat_entries entries rest) (cond_at pos true skipped) n s
        ≡ (apply_all usb kind entries n >>= walk_from usb kind rest (cond_at pos true skipped)) s
  unfolding walk_from flat_entries apply_all
  walk_entries_on [] rest pos skipped n s h = refl
  walk_entries_on (e ∷ entries) rest pos skipped n s h =
      rw (walk_from, h.0.0, h.0.1)
        (bind_ext (phy_apply usb kind e.0 e.1)
            (λ _. walk_from usb kind (flat_entries entries rest) (cond_at pos true skipped) (n + 1))
            (λ _.
              apply_all usb kind entries (n + 1)
              >>= walk_from usb kind rest (cond_at pos true skipped))
            (λ _ s'. walk_entries_on entries rest pos skipped (n + 1) s' h.1) s
          ∙ sym (
              bind_assoc (phy_apply usb kind e.0 e.1) (λ _. apply_all usb kind entries (n + 1)) _
                s))

  pub apply_all-append :
      (xs ys : List (ℕ × ℕ)) (n : ℕ) (s : Softc W)
      → apply_all usb kind (xs ++ ys) n s ≡ (apply_all usb kind xs n >>= apply_all usb kind ys) s
  unfolding apply_all
  apply_all-append [] ys n s = refl
  apply_all-append (e ∷ xs) ys n s =
      bind_ext (phy_apply usb kind e.0 e.1) (λ _. apply_all usb kind (xs ++ ys) (n + 1))
        (λ _. apply_all usb kind xs (n + 1) >>= apply_all usb kind ys)
        (λ _ s'. apply_all-append xs ys (n + 1) s') s
      ∙ sym (bind_assoc (phy_apply usb kind e.0 e.1) (λ _. apply_all usb kind xs (n + 1)) _ s)

  module _ {κ} {P : Softc W → Type κ} (off : OffIo P) where
    pub Preserves-phy_apply : (addr val : ℕ) → Preserves P (phy_apply usb kind addr val)
    unfolding phy_apply phy_write_rf_a
    Preserves-phy_apply addr val = Preserves-if (is_delay kind addr) (Preserves-pure tt) (
        Preserves-if (kind == kind_mac) (Preserves-write1 off usb (u16 addr) (u8 val)) (
          Preserves-if (kind == kind_bb || kind == kind_agc)
            (Preserves-write4 off usb (u16 addr) val)
            (Preserves-if (kind == kind_rf_a)
              (Preserves-write4 off usb 0x0c90 (sipi_command addr val)) (Preserves-throw einval))))

    pub Preserves-apply_all :
        (entries : List (ℕ × ℕ)) (n : ℕ) → Preserves P (apply_all usb kind entries n)
    unfolding apply_all
    Preserves-apply_all [] n = Preserves-pure n
    Preserves-apply_all (e ∷ entries) n =
        Preserves-seq (Preserves-phy_apply e.0 e.1) (Preserves-apply_all entries (n + 1))
