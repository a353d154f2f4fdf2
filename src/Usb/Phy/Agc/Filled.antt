-- ===== src/Usb/Phy/Agc/Filled.antt =====
-- What the AGC table writes, for each chip.
use rtw88_pub.Base.{
  ℕ, zero, suc, ◌+◌, ◌≡◌, refl, sym, ap, ◌∙◌, Bool, Bool-cases, inl, inr, true, not, ◌&&◌, ◌==◌,
  List, [], ◌∷◌, map, some, All, has, take, drop, bit_and, ◌>>>◌, arith, if◌then◌else◌,
}
use mathlib.Core.List.{append-nil}
use rtw88_pub.Usb.Softc.{UsbDevice, ChipIds, Softc}
use rtw88_pub.Usb.Phy.{
  cond_bit_pos, cond_bit_neg, cond_branch, kind_bb, phy_cond_check, phy_walk_table,
}
use rtw88_pub.Usb.Phy.Program.{
  Branch, Item, choose, flat_entries, flat_branches, flat_otherwise, flat_items, taken, selected,
  apply_all, IsEntry, IsItem,
}
use rtw88_pub.Usb.Phy.Program.Refinement.{phy_walk_table-selected}
use rtw88_pub.Usb.Phy.Agc.{agc_btg_if, agc_btg_elif, agc_btg_else, agc_btg_type2, agc_btg_type2_num}

-- Pairs of words.
abbrev pairs : List ℕ → List (ℕ × ℕ)
pairs [] = []
pairs (w ∷ []) = []
pairs (w0 ∷ w1 ∷ words) = (w0, w1) ∷ pairs words

abbrev upto : ℕ → ℕ → List ℕ
upto zero i = []
upto (suc n) i = i ∷ upto n (i + 1)

-- The slot that a word written to the AGC port fills: bit 11 is the bank, bits 22 to 17 the index.
abbrev pub slot : ℕ → ℕ
slot word = bit_and (word >>> 17) 0x3f + (if has word 0x800 then 64 else 0)

are_entries : List (ℕ × ℕ) → Bool
are_entries [] = true
are_entries (e ∷ es) = not (has e.0 cond_bit_pos) && not (has e.0 cond_bit_neg) && are_entries es

entries_of : ℕ → List ℕ → List (ℕ × ℕ)
entries_of skipped block = take 128 (pairs (drop skipped block))

-- The table as a program: one choice, which ends with it.
btg_branch : List ℕ → ℕ → Branch
unfolding entries_of
btg_branch block opening = record {
  opening = (opening, 0);
  check = (0x40000000, 0);
  entries = entries_of 4 block;
}

btg_program : Item
unfolding btg_branch
btg_program =
    choose (btg_branch agc_btg_if 0x80001004 ∷ btg_branch agc_btg_elif 0x90001005 ∷ [])
      (some (record { marker = (0xa0000000, 0); entries = entries_of 2 agc_btg_else }))
      (0xb0000000, 0)

btg_program-flat : flat_items (btg_program ∷ []) ≡ take agc_btg_type2_num agc_btg_type2
unfolding btg_program agc_btg_if agc_btg_elif agc_btg_else agc_btg_type2 flat_items flat_branches
    flat_otherwise flat_entries btg_branch entries_of
btg_program-flat = refl

-- The list fills every slot of both banks once, from the first to the last, through the AGC port.
abbrev pub IsFilling : List (ℕ × ℕ) → Type 0
IsFilling es = All (λ e. e.0 ≡ 0x81c) es × (map (λ e. slot e.1) es ≡ upto 128 0)

is_port : List (ℕ × ℕ) → Bool
is_port [] = true
is_port (e ∷ es) = (e.0 == 0x81c) && is_port es

are_entries-All : (es : List (ℕ × ℕ)) → are_entries es ≡ true → All IsEntry es
unfolding are_entries
are_entries-All [] h = tt
are_entries-All (e ∷ es) h =
    ((ground (arith, h), ground (arith, h)), are_entries-All es (ground (arith, h)))

is_port-All : (es : List (ℕ × ℕ)) → is_port es ≡ true → All (λ e. e.0 ≡ 0x81c) es
unfolding is_port
is_port-All [] h = tt
is_port-All (e ∷ es) h = (ground (arith, h), is_port-All es (ground (arith, h)))

btg_program-IsItem : All IsItem (btg_program ∷ [])
unfolding btg_program btg_branch entries_of agc_btg_if agc_btg_elif agc_btg_else are_entries has
    cond_branch
btg_program-IsItem = (
  (
    (
      (refl, omega arith, (refl, refl), are_entries-All (entries_of 4 agc_btg_if) refl),
      ((refl, omega arith, (refl, refl), are_entries-All (entries_of 4 agc_btg_elif) refl), tt),
    ),
    ((refl, refl), are_entries-All (entries_of 2 agc_btg_else) refl),
    (refl, refl),
  ),
  tt,
)

if-IsFilling : IsFilling (entries_of 4 agc_btg_if)
unfolding entries_of agc_btg_if has is_port
if-IsFilling = (is_port-All (entries_of 4 agc_btg_if) refl, refl)

elif-IsFilling : IsFilling (entries_of 4 agc_btg_elif)
unfolding entries_of agc_btg_elif has is_port
elif-IsFilling = (is_port-All (entries_of 4 agc_btg_elif) refl, refl)

else-IsFilling : IsFilling (entries_of 2 agc_btg_else)
unfolding entries_of agc_btg_else has is_port
else-IsFilling = (is_port-All (entries_of 2 agc_btg_else) refl, refl)

taken-IsFilling :
    (ids : ChipIds)
    → IsFilling (
        taken ids
          (btg_branch agc_btg_if 0x80001004 ∷ btg_branch agc_btg_elif 0x90001005 ∷ [])
          (some (record { marker = (0xa0000000, 0); entries = entries_of 2 agc_btg_else })))
unfolding taken btg_branch
taken-IsFilling ids = elim (Bool-cases (phy_cond_check ids 0x80001004)) [
  | inl e ↦ rw e if-IsFilling
  | inr e ↦ elim (Bool-cases (phy_cond_check ids 0x90001005)) [
    | inl e' ↦ rw (e, e') elif-IsFilling
    | inr e' ↦ rw (e, e') else-IsFilling
  ]
]

-- The walk over the AGC table, whatever the chip is and whatever the adapter answers, applies a list
-- of entries, one after the other up to the first that fails, that goes through the AGC port and
-- fills each of the 128 slots of the gain table once and in order.
pub phy_walk_table-IsFilling :
    {W : Type 0} (usb : UsbDevice W) (s : Softc W)
    → (es : List (ℕ × ℕ)) × IsFilling es
      × (phy_walk_table usb kind_bb (take agc_btg_type2_num agc_btg_type2) s
          ≡ apply_all usb kind_bb es 0 s)
unfolding selected btg_program
phy_walk_table-IsFilling usb s = (
  _,
  taken-IsFilling s.ids,
  ap (λ words. phy_walk_table usb kind_bb words s) (sym btg_program-flat)
      ∙ phy_walk_table-selected usb kind_bb (btg_program ∷ []) s btg_program-IsItem
      ∙ ap (λ es. apply_all usb kind_bb es 0 s) (append-nil _),
)
