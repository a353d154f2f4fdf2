-- ===== src/Efuse.antt =====
-- sys/dev/rtw88/rtw88_efuse.c: reading the one-time-programmable map and expanding its blocks into
-- the logical map.
pub mod Read
pub mod Total
pub mod RoundTrip
use rtw88_pub.Base.{
  ℕ, zero, suc, ◌+◌, ◌-◌, ◌*◌, ◌^◌, Bool, true, false, ◌&&◌, ◌||◌, List, Option, none, some, Errno,
  einval, bit_and, bit_or, has, ltb, leb, ◌==◌, if◌then◌else◌, u16, ◌<<◌, ◌>>>◌, get_elem?, set,
  replicate,
}

-- The result of the walk. `failed` is an error return, with the logical map as far as it was
-- filled. `fault` is a read outside `phy`, undefined in C, and `stuck` a walk that ran out of rounds.
pub data Outcome {ℓ} (A : Type ℓ) : Type ℓ where
  done : A → Outcome A
  failed : Errno → List ℕ → Outcome A
  fault stuck : Outcome A

infixl 5 ◌>>=◌
abbrev pub ◌>>=◌ {ℓ κ} : {A : Type ℓ} {B : Type κ} → Outcome A → (A → Outcome B) → Outcome B
done a >>= f = f a
failed e l >>= f = failed e l
fault >>= f = fault
stuck >>= f = stuck

abbrev pub or_fault : Option ℕ → Outcome ℕ
or_fault none = fault
or_fault (some b) = done b

abbrev pub byte_at : List ℕ → ℕ → Outcome ℕ
byte_at phy i = or_fault (get_elem? phy i)

-- Block, word enables and where the words begin.
pub record Header : Type 0 where
  pub blk_idx : ℕ
  pub word_en : ℕ
  pub phy_idx : ℕ

pub is_extended : ℕ → Bool
is_extended hdr1 = bit_and hdr1 0x1f == 0xf

pub is_end : ℕ → ℕ → Bool
unfolding is_extended
is_end hdr1 hdr2 = hdr1 == 0xff || (is_extended hdr1 && hdr2 == 0xff)

pub decode_header : ℕ → ℕ → ℕ → Header
unfolding is_extended
decode_header phy_idx hdr1 hdr2 =
    if is_extended hdr1
    then record {
      blk_idx = bit_or (bit_and hdr2 0xf0 >>> 1) (bit_and (hdr1 >>> 5) 0x07);
      word_en = bit_and hdr2 0xf;
      phy_idx = u16 (phy_idx + 2);
    }
    else record {
      blk_idx = bit_and hdr1 0xf0 >>> 4;
      word_en = bit_and hdr1 0xf;
      phy_idx = u16 (phy_idx + 1);
    }

module _ (size limit : ℕ) (phy : List ℕ) where
  -- One word: two bytes of `phy` go to the logical map, if both maps have room.
  pub copy_word : ℕ → ℕ → List ℕ → Outcome (List ℕ)
  copy_word log_idx phy_idx log =
      if leb limit (phy_idx + 1)
      then failed einval log
      else (if leb size (log_idx + 1) then failed einval log else do
        lo ← byte_at phy phy_idx
        hi ← byte_at phy (phy_idx + 1)
        done (set (set log log_idx lo) (log_idx + 1) hi))

  -- The `for` over the four words of a block, with `left` of them to go. A set bit skips the word.
  pub copy_words : ℕ → ℕ → ℕ → ℕ → ℕ → List ℕ → Outcome (ℕ × List ℕ)
  copy_words zero i blk_idx word_en phy_idx log = done (phy_idx, log)
  copy_words (suc left) i blk_idx word_en phy_idx log = elim (has word_en (2 ^ i)) [
    | true ↦ copy_words left (i + 1) blk_idx word_en phy_idx log
    | false ↦ do
      log' ← copy_word ((blk_idx << 3) + (i << 1)) phy_idx log
      copy_words left (i + 1) blk_idx word_en (u16 (phy_idx + 2)) log'
  ]

  -- The `while`, with a bound on its rounds; `limit` is `size - protect`.
  pub walk_from : ℕ → ℕ → List ℕ → Outcome (List ℕ)
  walk_from zero phy_idx log = stuck
  walk_from (suc rounds) phy_idx log = elim (ltb phy_idx limit) [
    | false ↦ done log
    | true ↦ do
      hdr1 ← byte_at phy phy_idx
      hdr2 ← byte_at phy (phy_idx + 1)
      elim (is_end hdr1 hdr2) [
        | true ↦ done log
        | false ↦ do
          let h = decode_header phy_idx hdr1 hdr2
          (phy_idx', log') ← copy_words 4 0 h.blk_idx h.word_en h.phy_idx log
          walk_from rounds phy_idx' log'
      ]
  ]

-- Each round takes a header byte at least, so `limit + 1` rounds are enough. `size - protect` is
-- signed in C; where it is negative, as where it is 0, the loop does not begin.
pub logical_walk : (size protect : ℕ) → List ℕ → Outcome (List ℕ)
logical_walk size protect phy =
    let limit = size - protect in walk_from size limit phy (limit + 1) 0 (replicate size 0xff)
