-- ===== src/Usb/Phy/Program.antt =====
-- The conditional tables as programs: entries and choices, IF, ELIF, ELSE, ENDIF.
mod Steps
pub mod Refinement
use rtw88_pub.Base.{
  ℕ, ◌+◌, ◌<◌, ◌≡◌, M, ◌>>=◌, ◌>>◌, pure, Bool, true, false, List, [], ◌∷◌, ◌++◌, Option, none,
  some, All, if◌then◌else◌, has,
}
use rtw88_pub.Usb.Softc.{UsbDevice, ChipIds, Softc}
use rtw88_pub.Usb.Phy.{cond_bit_pos, cond_bit_neg, cond_branch, phy_cond_check, phy_apply}

-- A branch: the word that opens it and holds its condition, the word that has it tested, the second
-- words of both pairs, which are not looked at, and the entries.
pub record Branch : Type 0 where
  pub opening : ℕ × ℕ
  pub check : ℕ × ℕ
  pub entries : List (ℕ × ℕ)

pub record Otherwise : Type 0 where
  pub marker : ℕ × ℕ
  pub entries : List (ℕ × ℕ)

pub data Item : Type 0 where
  plain : ℕ × ℕ → Item
  choose : List Branch → Option Otherwise → ℕ × ℕ → Item

-- The words of a program, before the words `rest`.
unfoldable pub flat_entries : List (ℕ × ℕ) → List ℕ → List ℕ
flat_entries [] rest = rest
flat_entries ((addr, val) ∷ entries) rest = addr ∷ val ∷ flat_entries entries rest

unfoldable pub flat_branches : List Branch → List ℕ → List ℕ
flat_branches [] rest = rest
flat_branches (b ∷ bs) rest =
    b.opening.0
    ∷ b.opening.1
    ∷ b.check.0
    ∷ b.check.1
    ∷ flat_entries b.entries (flat_branches bs rest)

unfoldable pub flat_otherwise : Option Otherwise → List ℕ → List ℕ
flat_otherwise none rest = rest
flat_otherwise (some o) rest = o.marker.0 ∷ o.marker.1 ∷ flat_entries o.entries rest

unfoldable pub flat_items : List Item → List ℕ
flat_items [] = []
flat_items (plain e ∷ items) = e.0 ∷ e.1 ∷ flat_items items
flat_items (choose bs o closing ∷ items) =
    flat_branches bs (flat_otherwise o (closing.0 ∷ closing.1 ∷ flat_items items))

-- The entries that a chip takes: of a choice, those of the first branch whose condition holds, else
-- those of ELSE.
unfoldable pub taken : ChipIds → List Branch → Option Otherwise → List (ℕ × ℕ)
taken ids [] none = []
taken ids [] (some o) = o.entries
taken ids (b ∷ bs) o = if phy_cond_check ids b.opening.0 then b.entries else taken ids bs o

unfoldable pub selected : ChipIds → List Item → List (ℕ × ℕ)
selected ids [] = []
selected ids (plain e ∷ items) = e ∷ selected ids items
selected ids (choose bs o closing ∷ items) = taken ids bs o ++ selected ids items

-- Which words may stand where.
abbrev pub IsEntry : ℕ × ℕ → Type 0
IsEntry e = (has e.0 cond_bit_pos ≡ false) × (has e.0 cond_bit_neg ≡ false)

abbrev pub IsMarker : ℕ → ℕ × ℕ → Type 0
IsMarker kind e = (has e.0 cond_bit_pos ≡ true) × (cond_branch e.0 ≡ kind)

abbrev pub IsCheck : ℕ × ℕ → Type 0
IsCheck e = (has e.0 cond_bit_pos ≡ false) × (has e.0 cond_bit_neg ≡ true)

abbrev pub IsBranch : Branch → Type 0
IsBranch b =
    (has b.opening.0 cond_bit_pos ≡ true)
    × (cond_branch b.opening.0 < 2)
    × IsCheck b.check
    × All IsEntry b.entries

abbrev pub IsOtherwise : Option Otherwise → Type 0
IsOtherwise none = Unit {0}
IsOtherwise (some o) = IsMarker 2 o.marker × All IsEntry o.entries

abbrev pub IsItem : Item → Type 0
IsItem (plain e) = IsEntry e
IsItem (choose bs o closing) = All IsBranch bs × IsOtherwise o × IsMarker 3 closing

-- What a program does: its entries, one after the other, with the count.
module _ {W : Type 0} (usb : UsbDevice W) (kind : ℕ) where
  pub apply_all : List (ℕ × ℕ) → ℕ → M (Softc W) ℕ
  apply_all [] applied = pure applied
  apply_all (e ∷ entries) applied = do phy_apply usb kind e.0 e.1; apply_all entries (applied + 1)
