-- ===== src/Efuse/Read/Cache.antt =====
-- What `rtw88_efuse_read` leaves in `d->efuse`.
use rtw88_pub.Base.{
  Bool-cases, true, ℕ, zero, suc, ◌+◌, ◌≡◌, refl, ap, sym, ◌⊎◌, inl, inr, List, [], ◌∷◌, Result, ok,
  err, Errno, length, Preserves, Preserves-bind, Preserves-ignore, Preserves-pure, Preserves-poll,
  Preserves-get, Result-cases, undefined, throw, Post, subst, Triple, Triple-bind, Triple-Preserves,
}
use rtw88_pub.Device.{HciOps, Dev, ChipInfo}
use rtw88_pub.Device.Frame.{
  OffBus, Preserves-read8, Preserves-read32, Preserves-write8, Preserves-write32,
}
use rtw88_pub.Efuse.{Outcome, done, failed, fault, stuck, logical_walk}
use rtw88_pub.Efuse.Read.{
  read_phys_byte, read_phys_bytes, read_phys_map, program_macid, efuse_read, extract, settle,
  cache_map, keep_map, is_extractable,
}

module _ {B : Type 0} {P : Dev B → Type 0} (off : OffBus P) (hci : HciOps B) where
  Preserves-read_phys_byte : (addr : ℕ) → Preserves P (read_phys_byte hci addr)
  unfolding read_phys_byte
  Preserves-read_phys_byte addr = Preserves-bind (Preserves-read32 off hci _) λ val.
      Preserves-bind (Preserves-write32 off hci _ _) λ _.
        Preserves-bind (Preserves-poll 1000 _ _ (Preserves-read32 off hci _)) λ v. Preserves-pure _

  Preserves-read_phys_bytes : (left addr : ℕ) → Preserves P (read_phys_bytes hci left addr)
  unfolding read_phys_bytes
  Preserves-read_phys_bytes zero addr = Preserves-pure []
  Preserves-read_phys_bytes (suc left) addr =
      Preserves-bind (Preserves-read_phys_byte addr)
        λ b. Preserves-bind (Preserves-read_phys_bytes left (addr + 1)) λ bs. Preserves-pure _

  Preserves-read_phys_map : Preserves P (read_phys_map hci)
  unfolding read_phys_map
  Preserves-read_phys_map = Preserves-bind (Preserves-read32 off hci _) λ ldo.
      Preserves-bind (Preserves-write32 off hci _ _) λ _.
        Preserves-bind (Preserves-read8 off hci _) λ pwr.
          Preserves-bind (Preserves-write8 off hci _ _)
            λ _. Preserves-bind Preserves-get λ d. Preserves-read_phys_bytes _ 0

  Preserves-program_macid : (mac : List ℕ) (a : ℕ) → Preserves P (program_macid hci mac a)
  unfolding program_macid
  Preserves-program_macid [] a = Preserves-pure tt
  Preserves-program_macid (b ∷ mac) a =
      Preserves-bind (Preserves-ignore (Preserves-write8 off hci a b))
        λ _. Preserves-program_macid mac (a + 1)

-- Two things of the handle that reading the map leaves alone.
abbrev Same : {B : Type 0} → Dev B → Dev B → Type 0
Same d d' = (d'.efuse ≡ d.efuse) × (d'.chip ≡ d.chip)

-- The cache after a call: filled from a walked map of the chip's size, or as it was.
abbrev pub Cached : {B : Type 0} → Dev B → Result (Unit {0}) → Dev B → Type 0
Cached d r d' =
    ((r ≡ ok tt)
      × ((phy : List ℕ) × (log : List ℕ) × (length phy ≡ d.chip.efuse_size)
          × (logical_walk d.chip.efuse_size d.chip.efuse_ptct_size phy ≡ done log)
          × (is_extractable d.chip log ≡ true)
          × (d'.efuse ≡ extract d.chip log)))
    ⊎ ((e : Errno) × (r ≡ err e) × (d'.efuse ≡ d.efuse))

module _ {B : Type 0} (hci : HciOps B) where
  Same-OffBus : (d : Dev B) → OffBus (Same d)
  Same-OffBus d = record { blind = λ d' b p. p }

  abbrev Sized : Dev B → ℕ → List ℕ → Dev B → Type 0
  Sized d n phy d' = Same d d' × (length phy ≡ n)

  abbrev Kept : {A : Type 0} → Dev B → A → Dev B → Type 0
  Kept d a = Same d

  read_phys_bytes-Sized :
      (d : Dev B) (left addr : ℕ)
      → Triple (Same d) (Sized d left) (Kept d) (read_phys_bytes hci left addr)
  unfolding read_phys_bytes
  read_phys_bytes-Sized d zero addr = record { runs = λ s p. (p, refl) }
  read_phys_bytes-Sized d (suc left) addr =
      Triple-bind (Kept d) (Triple-Preserves (Preserves-read_phys_byte (Same-OffBus d) hci addr))
        λ b.
          Triple-bind (Sized d left) (read_phys_bytes-Sized d left (addr + 1))
            λ bs. record { runs = λ s p. (p.0, ap suc p.1) }

  read_phys_map-Sized :
      (d : Dev B) → Triple (Same d) (Sized d d.chip.efuse_size) (Kept d) (read_phys_map hci)
  unfolding read_phys_map
  read_phys_map-Sized d =
      Triple-bind (Kept d) (Triple-Preserves (Preserves-read32 off hci _)) λ ldo.
        Triple-bind (Kept d) (Triple-Preserves (Preserves-write32 off hci _ _)) λ _.
          Triple-bind (Kept d) (Triple-Preserves (Preserves-read8 off hci _)) λ pwr.
            Triple-bind (Kept d) (Triple-Preserves (Preserves-write8 off hci _ _)) λ _. record {
              runs = λ s p.
                  subst
                    (λ n.
                      Post (Sized d d.chip.efuse_size) (Kept d) (read_phys_bytes hci n 0 s).0
                        (read_phys_bytes hci n 0 s).1)
                    (ap (λ (c : ChipInfo). c.efuse_size) (sym p.1))
                    ((read_phys_bytes-Sized d d.chip.efuse_size 0).runs s p);
            }
    where
      off : OffBus (Same d)
      off = Same-OffBus d

  program_macid-ok : (mac : List ℕ) (a : ℕ) (d : Dev B) → (program_macid hci mac a d).0 ≡ ok tt
  unfolding program_macid
  program_macid-ok [] a d = refl
  program_macid-ok (b ∷ mac) a d = program_macid-ok mac (a + 1) _

  program_macid-efuse :
      (mac : List ℕ) (a : ℕ) (d : Dev B) → (program_macid hci mac a d).1.efuse ≡ d.efuse
  program_macid-efuse mac a d =
      (Preserves-program_macid {P = λ d'. d'.efuse ≡ d.efuse} (record { blind = λ d' b p. p }) hci
          mac a).keeps
        d refl

  Outcome-cases :
      (r : Outcome (List ℕ))
      → ((log : List ℕ) × (r ≡ done log)) ⊎ ((e : Errno) × (settle {S = Dev B} r ≡ throw e))
  Outcome-cases (done log) = inl (log, refl)
  Outcome-cases (failed e log) = inr (e, refl)
  Outcome-cases fault = inr (undefined, refl)
  Outcome-cases stuck = inr (undefined, refl)

  cache_map-Cached :
      (d d' : Dev B) (phy : List ℕ)
      → Sized d d.chip.efuse_size phy d'
      → Cached d (cache_map hci phy d').0 (cache_map hci phy d').1
  unfolding cache_map keep_map
  cache_map-Cached d d' phy p =
      elim (Outcome-cases (logical_walk d.chip.efuse_size d.chip.efuse_ptct_size phy)) [
        | inl (log, e) ↦ elim (Bool-cases (is_extractable d.chip log)) [
          | inl inside ↦ rw p.0.1 (
              rw (e, inside)
                (inl
                  (program_macid-ok _ _ _, (phy, log, p.1, e, inside, program_macid-efuse _ _ _))))
          | inr outside ↦ rw p.0.1 (rw (e, outside) (inr (undefined, refl, p.0.0)))
        ]
        | inr (x, e) ↦ rw p.0.1 (rw e (inr (x, refl, p.0.0)))
      ]

  -- `rtw88_efuse_read` is atomic on `d->efuse`, whatever the bus does: it succeeds, and what it keeps
  -- is extracted from the walk of a map of the chip's size, each read of it inside that map, or it fails and leaves the cache as it was.
  pub efuse_read-Cached : (d : Dev B) → Cached d (efuse_read hci d).0 (efuse_read hci d).1
  unfolding efuse_read
  efuse_read-Cached d =
      let read = (read_phys_map-Sized d).runs d (refl, refl) in
      elim (Result-cases (read_phys_map hci d).0) [
        | inl (phy, e) ↦ rw e (cache_map-Cached d (read_phys_map hci d).1 phy (rw e at read))
        | inr (x, e) ↦ rw e (inr (x, refl, (rw e at read).0))
      ]
