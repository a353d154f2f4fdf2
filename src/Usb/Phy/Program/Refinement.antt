-- ===== src/Usb/Phy/Program/Refinement.antt =====
-- The walk with its two flags against the program that the words of a table stand for.
use rtw88_pub.Base.{
  ℕ, ◌<◌, ◌≡◌, refl, ap, sym, ◌∙◌, inl, inr, arith, Bool, true, false, not, List, [], ◌∷◌, Option,
  none, some, All, M, ◌>>=◌, Bool-cases, has, bind_ext, bind_agree,
}
use rtw88_pub.Usb.Softc.{UsbDevice, ChipIds, Softc}
use rtw88_pub.Usb.Io.Access.{OffIo}
use rtw88_pub.Usb.Phy.{
  cond_bit_pos, cond_branch, phy_cond_check, Cond, on_branch, on_check, walk_from, phy_walk_table,
}
use rtw88_pub.Usb.Phy.Program.{
  apply_all, Branch, Otherwise, Item, plain, choose, flat_entries, flat_branches, flat_otherwise,
  flat_items, taken, selected, IsMarker, IsCheck, IsBranch, IsOtherwise, IsItem,
}
use rtw88_pub.Usb.Phy.Program.Steps.{
  cond_at, walk_branch, walk_check, walk_entries_off, walk_entries_on, apply_all-append,
  Preserves-apply_all,
}

on_branch-opening :
    (w pos : ℕ) (m k : Bool) → cond_branch w < 2 → on_branch w (cond_at pos m k) ≡ cond_at w m k
unfolding on_branch
on_branch-opening w pos m k h = ground arith

on_branch-else :
    (w pos : ℕ) (m k : Bool)
    → cond_branch w ≡ 2
    → on_branch w (cond_at pos m k) ≡ cond_at pos (not k) k
unfolding on_branch
on_branch-else w pos m k h = rw h refl

on_branch-endif :
    (w pos : ℕ) (m k : Bool)
    → cond_branch w ≡ 3
    → on_branch w (cond_at pos m k) ≡ cond_at pos true false
unfolding on_branch
on_branch-endif w pos m k h = rw h refl

on_check-skipped :
    (ids : ChipIds) (pos : ℕ) (m : Bool)
    → on_check ids (cond_at pos m true) ≡ cond_at pos false true
unfolding on_check
on_check-skipped ids pos m = refl

on_check-tested :
    (ids : ChipIds) (pos : ℕ) (m b : Bool)
    → phy_cond_check ids pos ≡ b
    → on_check ids (cond_at pos m false) ≡ cond_at pos b b
unfolding on_check
on_check-tested ids pos m true h = rw h refl
on_check-tested ids pos m false h = rw h refl

module _ {W : Type 0} (usb : UsbDevice W) (kind : ℕ) where
  abbrev walk : List ℕ → Cond → ℕ → M (Softc W) ℕ
  walk = walk_from usb kind

  -- A marker moves the walk from one condition to another.
  walk_marker :
      (e : ℕ × ℕ) (words : List ℕ) (c c' : Cond) (n : ℕ) (s : Softc W)
      → has e.0 cond_bit_pos ≡ true
      → on_branch e.0 c ≡ c'
      → walk (e.0 ∷ e.1 ∷ words) c n s ≡ walk words c' n s
  walk_marker e words c c' n s h k =
      walk_branch usb kind e words c n s h ∙ ap (λ x. walk words x n s) k

  walk_test :
      (e : ℕ × ℕ) (words : List ℕ) (c c' : Cond) (n : ℕ) (s : Softc W)
      → IsCheck e
      → on_check s.ids c ≡ c'
      → walk (e.0 ∷ e.1 ∷ words) c n s ≡ walk words c' n s
  walk_test e words c c' n s h k =
      walk_check usb kind e words c n s h ∙ ap (λ x. walk words x n s) k

  abbrev last_opening : List Branch → ℕ → ℕ
  last_opening [] pos = pos
  last_opening (b ∷ bs) pos = last_opening bs b.opening.0

  module _ (closing : ℕ × ℕ) (rest : List ℕ) (okc : IsMarker 3 closing) where
    abbrev tail : List ℕ
    tail = closing.0 ∷ closing.1 ∷ rest

    abbrev closed : ℕ → ℕ → M (Softc W) ℕ
    closed pos = walk rest (cond_at pos true false)

    close :
        (pos : ℕ) (m k : Bool) (n : ℕ) (s : Softc W)
        → walk tail (cond_at pos m k) n s ≡ closed pos n s
    close pos m k n s =
        walk_marker closing rest _ _ n s okc.0 (on_branch-endif closing.0 pos m k okc.1)

    -- Once a branch was taken the rest of the choice is passed over.
    passed_otherwise :
        (o : Option Otherwise) (pos : ℕ) (m : Bool) (n : ℕ) (s : Softc W)
        → IsOtherwise o
        → walk (flat_otherwise o tail) (cond_at pos m true) n s ≡ closed pos n s
    unfolding flat_otherwise
    passed_otherwise none pos m n s ok = close pos m true n s
    passed_otherwise (some o) pos m n s ok =
        walk_marker o.marker _ _ _ n s ok.0.0 (on_branch-else o.marker.0 pos m true ok.0.1)
        ∙ walk_entries_off usb kind o.entries tail pos true n s ok.1
        ∙ close pos false true n s

    passed_branches :
        (bs : List Branch) (o : Option Otherwise) (pos : ℕ) (m : Bool) (n : ℕ) (s : Softc W)
        → All IsBranch bs
        → IsOtherwise o
        → walk (flat_branches bs (flat_otherwise o tail)) (cond_at pos m true) n s
          ≡ closed (last_opening bs pos) n s
    unfolding flat_branches
    passed_branches [] o pos m n s ok oko = passed_otherwise o pos m n s oko
    passed_branches (b ∷ bs) o pos m n s ok oko =
        let (opens, is_if, tests, entries) = ok.0 in
        walk_marker b.opening _ _ _ n s opens (on_branch-opening b.opening.0 pos m true is_if)
        ∙ walk_test b.check _ _ _ n s tests (on_check-skipped s.ids b.opening.0 m)
        ∙ walk_entries_off usb kind b.entries _ b.opening.0 true n s entries
        ∙ passed_branches bs o b.opening.0 false n s ok.1 oko

    -- A choice applies what it takes and goes on behind its ENDIF.
    walk_choice :
        (bs : List Branch) (o : Option Otherwise) (pos : ℕ) (m : Bool) (n : ℕ) (s : Softc W)
        → All IsBranch bs
        → IsOtherwise o
        → walk (flat_branches bs (flat_otherwise o tail)) (cond_at pos m false) n s
          ≡ (apply_all usb kind (taken s.ids bs o) n >>= closed (last_opening bs pos)) s
    unfolding flat_branches flat_otherwise taken apply_all
    walk_choice [] none pos m n s ok oko = close pos m false n s
    walk_choice [] (some o) pos m n s ok oko =
        walk_marker o.marker _ _ _ n s oko.0.0 (on_branch-else o.marker.0 pos m false oko.0.1)
        ∙ walk_entries_on usb kind o.entries tail pos false n s oko.1
        ∙ bind_ext (apply_all usb kind o.entries n) (walk tail (cond_at pos true false))
            (closed pos) (close pos true false) s
    walk_choice (b ∷ bs) o pos m n s ok oko =
        let (opens, is_if, tests, entries) = ok.0 in
        let opened =
          walk_marker b.opening _ _ _ n s opens (on_branch-opening b.opening.0 pos m false is_if) in
        elim (Bool-cases (phy_cond_check s.ids b.opening.0)) [
          | inl e ↦
              opened
              ∙ walk_test b.check _ _ _ n s tests (on_check-tested s.ids b.opening.0 m true e)
              ∙ walk_entries_on usb kind b.entries _ b.opening.0 true n s entries
              ∙ rw e (
                  bind_ext (apply_all usb kind b.entries n)
                    (walk (flat_branches bs (flat_otherwise o tail))
                      (cond_at b.opening.0 true true))
                    (closed (last_opening bs b.opening.0))
                    (λ n' s'. passed_branches bs o b.opening.0 true n' s' ok.1 oko) s)
          | inr e ↦
              opened
              ∙ walk_test b.check _ _ _ n s tests (on_check-tested s.ids b.opening.0 m false e)
              ∙ walk_entries_off usb kind b.entries _ b.opening.0 false n s entries
              ∙ rw e (walk_choice bs o b.opening.0 false n s ok.1 oko)
        ]

  abbrev Has : ChipIds → Softc W → Type 0
  Has ids s = s.ids ≡ ids

  Has-OffIo : (ids : ChipIds) → OffIo (Has ids)
  Has-OffIo ids = record { blind = λ sc w busy errors p. p }

  walk_items :
      (items : List Item) (ids : ChipIds) (pos n : ℕ) (s : Softc W)
      → All IsItem items
      → Has ids s
      → walk (flat_items items) (cond_at pos true false) n s
        ≡ apply_all usb kind (selected ids items) n s
  unfolding flat_items selected apply_all walk_from flat_entries
  walk_items [] ids pos n s ok p = refl
  walk_items (plain e ∷ items) ids pos n s ok p =
      walk_entries_on usb kind (e ∷ []) (flat_items items) pos false n s (ok.0, tt)
      ∙ bind_agree {P = Has ids} {f = walk (flat_items items) (cond_at pos true false)}
          {g = apply_all usb kind (selected ids items)}
          (Preserves-apply_all usb kind (Has-OffIo ids) (e ∷ []) n)
          (λ n' s' p'. walk_items items ids pos n' s' ok.1 p') s p
      ∙ sym (apply_all-append usb kind (e ∷ []) (selected ids items) n s)
  walk_items (choose bs o closing ∷ items) ids pos n s ok p =
      walk_choice closing (flat_items items) ok.0.2 bs o pos true n s ok.0.0 ok.0.1
      ∙ ap
          (λ x.
            (apply_all usb kind (taken x bs o) n
                >>= walk (flat_items items) (cond_at (last_opening bs pos) true false))
              s)
          p
      ∙ bind_agree {P = Has ids}
          {f = walk (flat_items items) (cond_at (last_opening bs pos) true false)}
          {g = apply_all usb kind (selected ids items)}
          (Preserves-apply_all usb kind (Has-OffIo ids) (taken ids bs o) n)
          (λ n' s' p'. walk_items items ids (last_opening bs pos) n' s' ok.1 p') s p
      ∙ sym (apply_all-append usb kind (taken ids bs o) (selected ids items) n s)

  -- The walk over the words of a program, whatever its kind and whatever the adapter answers, does
  -- what the program means: it applies the entries that the chip takes, in order and no others,
  -- stops at the first that fails, and otherwise returns how many there were.
  pub phy_walk_table-selected :
      (items : List Item) (s : Softc W)
      → All IsItem items
      → phy_walk_table usb kind (flat_items items) s ≡ apply_all usb kind (selected s.ids items) 0 s
  unfolding phy_walk_table
  phy_walk_table-selected items s ok = walk_items items s.ids 0 0 s ok refl
