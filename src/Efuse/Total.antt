-- ===== src/Efuse/Total.antt =====
-- The end of rtw88_efuse_logical_walk, and its bounds in both maps.
use rtw88_pub.Base.{
  ℕ, zero, suc, ◌+◌, ◌-◌, ◌^◌, ◌≤◌, ◌<◌, ◌≡◌, refl, arith, true, false, List, some, einval, has,
  ltb, Bool-cases, inl, inr, u16, ◌<<◌, get_elem?, get_or, set, length, length-set, get_elem?-some,
  replicate, length-replicate, ◌∙◌, ◌⊎◌,
}
use rtw88_pub.Efuse.{
  Outcome, done, failed, fault, stuck, decode_header, copy_word, copy_words, is_end, walk_from,
  logical_walk, ◌>>=◌,
}
use native.Mathlib.Decide.{dec_lt}

-- A normal return that filled a map of `size` bytes: `return (0)`, or `return (EINVAL)`.
abbrev pub Settles : ℕ → Outcome (List ℕ) → Type 0
Settles size (done log) = length log ≡ size
Settles size (failed e log) = (e ≡ einval) × (length log ≡ size)
Settles size fault = ⊥
Settles size stuck = ⊥

abbrev Advances : ℕ → ℕ → Outcome (ℕ × List ℕ) → Type 0
Advances size phy_idx (done (phy_idx', log)) = (phy_idx ≤ phy_idx') × (length log ≡ size)
Advances size phy_idx (failed e log) = (e ≡ einval) × (length log ≡ size)
Advances size phy_idx fault = ⊥
Advances size phy_idx stuck = ⊥

Advances-later :
    (size p q : ℕ) (r : Outcome (ℕ × List ℕ)) → p ≤ q → Advances size q r → Advances size p r
Advances-later size p q (done (p', log)) h a = (omega arith, a.1)
Advances-later size p q (failed e log) h a = a
Advances-later size p q fault h a = a
Advances-later size p q stuck h a = a

Settles->>= :
    (size q : ℕ) (r : Outcome (ℕ × List ℕ)) (f : ℕ × List ℕ → Outcome (List ℕ))
    → Advances size q r
    → ((p : ℕ) (log : List ℕ) → q ≤ p → length log ≡ size → Settles size (f (p, log)))
    → Settles size (r >>= f)
Settles->>= size q (done (p, log)) f a h = h p log a.0 a.1
Settles->>= size q (failed e log) f a h = a
Settles->>= size q fault f a h = a
Settles->>= size q stuck f a h = a

module _ (size limit : ℕ) (phy : List ℕ) (inside : limit ≤ length phy) where
  -- Where both maps have room for the word, it is copied.
  pub copy_word_fits :
      (log_idx phy_idx : ℕ) (log : List ℕ)
      → phy_idx + 1 < limit
      → log_idx + 1 < size
      → copy_word size limit phy log_idx phy_idx log
        ≡ done (
            set (set log log_idx (get_or phy phy_idx 0)) (log_idx + 1) (get_or phy (phy_idx + 1) 0))
  unfolding copy_word
  copy_word_fits log_idx phy_idx log h k = ground (
    arith,
    get_elem?-some phy phy_idx 0 (omega arith),
    get_elem?-some phy (phy_idx + 1) 0 (omega arith),
  )

  -- Where one of them has not, the walk fails.
  copy_word_full :
      (log_idx phy_idx : ℕ) (log : List ℕ)
      → (limit ≤ phy_idx + 1) ⊎ (size ≤ log_idx + 1)
      → copy_word size limit phy log_idx phy_idx log ≡ failed einval log
  unfolding copy_word
  copy_word_full log_idx phy_idx log h = ground arith

  length-set_word :
      (log : List ℕ) (i lo hi : ℕ) → length (set (set log i lo) (i + 1) hi) ≡ length log
  length-set_word log i lo hi = length-set (set log i lo) (i + 1) hi ∙ length-set log i lo

  pub copy_words_skip :
      (left i blk_idx word_en phy_idx : ℕ) (log : List ℕ)
      → has word_en (2 ^ i) ≡ true
      → copy_words size limit phy (suc left) i blk_idx word_en phy_idx log
        ≡ copy_words size limit phy left (i + 1) blk_idx word_en phy_idx log
  unfolding copy_words
  copy_words_skip left i blk_idx word_en phy_idx log h = rw (h, copy_words)

  pub copy_words_take :
      (left i blk_idx word_en phy_idx : ℕ) (log : List ℕ)
      → has word_en (2 ^ i) ≡ false
      → phy_idx + 1 < limit
      → (blk_idx << 3) + (i << 1) + 1 < size
      → copy_words size limit phy (suc left) i blk_idx word_en phy_idx log
        ≡ copy_words size limit phy left (i + 1) blk_idx word_en (u16 (phy_idx + 2)) (
            set
              (set log ((blk_idx << 3) + (i << 1)) (get_or phy phy_idx 0))
              ((blk_idx << 3) + (i << 1) + 1)
              (get_or phy (phy_idx + 1) 0))
  copy_words_take left i blk_idx word_en phy_idx log h k m =
      let word = copy_word_fits ((blk_idx << 3) + (i << 1)) phy_idx log k m in
      unfold copy_words in rw (h, copy_words) (rw (word, ◌>>=◌))

  copy_words_full :
      (left i blk_idx word_en phy_idx : ℕ) (log : List ℕ)
      → has word_en (2 ^ i) ≡ false
      → (limit ≤ phy_idx + 1) ⊎ (size ≤ (blk_idx << 3) + (i << 1) + 1)
      → copy_words size limit phy (suc left) i blk_idx word_en phy_idx log ≡ failed einval log
  copy_words_full left i blk_idx word_en phy_idx log h k =
      let word = copy_word_full ((blk_idx << 3) + (i << 1)) phy_idx log k in
      unfold copy_words in rw (h, copy_words) (rw (word, ◌>>=◌))

  room : (p l : ℕ) → ((p + 1 < limit) × (l + 1 < size)) ⊎ ((limit ≤ p + 1) ⊎ (size ≤ l + 1))
  room p l = grind arith

  module _ (small : limit < 2 ^ 16) where
    copy_words-Advances :
        (left i blk_idx word_en phy_idx : ℕ) (log : List ℕ)
        → length log ≡ size
        → Advances size phy_idx (copy_words size limit phy left i blk_idx word_en phy_idx log)
    copy_words-Advances zero i blk_idx word_en phy_idx log e = unfold copy_words in (omega arith, e)
    copy_words-Advances (suc left) i blk_idx word_en phy_idx log e =
        let log_idx = (blk_idx << 3) + (i << 1) in
        let log' =
          set (set log log_idx (get_or phy phy_idx 0)) (log_idx + 1) (get_or phy (phy_idx + 1) 0) in
        let skipped = copy_words-Advances left (i + 1) blk_idx word_en phy_idx log e in
        let taken =
          copy_words-Advances left (i + 1) blk_idx word_en (u16 (phy_idx + 2)) log'
            (length-set_word log log_idx _ _ ∙ e) in
        elim (Bool-cases (has word_en (2 ^ i))) [
          | inl skip ↦ rw (copy_words_skip left i blk_idx word_en phy_idx log skip) skipped
          | inr take ↦ elim (room phy_idx log_idx) [
            | inl (h, k) ↦
                rw (copy_words_take left i blk_idx word_en phy_idx log take h k)
                  (Advances-later size phy_idx _ _ (omega arith) taken)
            | inr full ↦ rw (copy_words_full left i blk_idx word_en phy_idx log take full) (refl, e)
          ]
        ]

-- The rounds of the walk. A header is read at `phy_idx` and `phy_idx + 1`.
module _ (size limit : ℕ) (phy : List ℕ) (inside : limit < length phy) where
  pub walk_from_limit :
      (rounds phy_idx : ℕ) (log : List ℕ)
      → limit ≤ phy_idx
      → walk_from size limit phy (suc rounds) phy_idx log ≡ done log
  unfolding walk_from
  walk_from_limit rounds phy_idx log h =
      let e : ltb phy_idx limit ≡ false = ground arith in rw (e, walk_from)

  abbrev hdr1 : ℕ → ℕ
  hdr1 phy_idx = get_or phy phy_idx 0

  abbrev hdr2 : ℕ → ℕ
  hdr2 phy_idx = get_or phy (phy_idx + 1) 0

  read1 : (p : ℕ) → p < limit → get_elem? phy p ≡ some (hdr1 p)
  read1 p h = get_elem?-some phy p 0 (omega arith)

  read2 : (p : ℕ) → p < limit → get_elem? phy (p + 1) ≡ some (hdr2 p)
  read2 p h = get_elem?-some phy (p + 1) 0 (omega arith)

  pub walk_from_end :
      (rounds phy_idx : ℕ) (log : List ℕ)
      → phy_idx < limit
      → is_end (hdr1 phy_idx) (hdr2 phy_idx) ≡ true
      → walk_from size limit phy (suc rounds) phy_idx log ≡ done log
  unfolding walk_from
  walk_from_end rounds phy_idx log h k =
      let e : ltb phy_idx limit ≡ true = ground arith in
      rw (e, walk_from) (rw (read1 phy_idx h, ◌>>=◌) (rw (read2 phy_idx h, ◌>>=◌) (rw k)))

  pub walk_from_block :
      (rounds phy_idx : ℕ) (log : List ℕ)
      → phy_idx < limit
      → is_end (hdr1 phy_idx) (hdr2 phy_idx) ≡ false
      → let h = decode_header phy_idx (hdr1 phy_idx) (hdr2 phy_idx) in
        walk_from size limit phy (suc rounds) phy_idx log ≡ (
          copy_words size limit phy 4 0 h.blk_idx h.word_en h.phy_idx log >>= λ r.
          walk_from size limit phy rounds r.0 r.1)
  unfolding walk_from
  walk_from_block rounds phy_idx log h k =
      let e : ltb phy_idx limit ≡ true = ground arith in
      rw (e, walk_from) (rw (read1 phy_idx h, ◌>>=◌) (rw (read2 phy_idx h, ◌>>=◌) (rw k)))

-- What a header moves on by.
header_moves : (p h1 h2 : ℕ) → p + 2 < 2 ^ 16 → (p < (decode_header p h1 h2).phy_idx)
unfolding decode_header
header_moves p h1 h2 h = ground arith

-- Enough rounds left for the bytes that are left: the walk ends with one of its two returns.
walk_from-Settles :
    (size limit : ℕ) (phy : List ℕ) (rounds phy_idx : ℕ) (log : List ℕ)
    → limit < length phy
    → limit + 1 < 2 ^ 16
    → 0 < rounds
    → limit < rounds + phy_idx
    → length log ≡ size
    → Settles size (walk_from size limit phy rounds phy_idx log)
walk_from-Settles size limit phy zero p log h k z m e = elim z [ ]
walk_from-Settles size limit phy (suc rounds) p log h k z m e = elim (dec_lt p limit) [
  | no past ↦ rw (walk_from_limit size limit phy h rounds p log (omega arith)) e
  | yes more ↦ elim (Bool-cases (is_end (get_or phy p 0) (get_or phy (p + 1) 0))) [
    | inl end ↦ rw (walk_from_end size limit phy h rounds p log more end) e
    | inr block ↦
        let head = decode_header p (get_or phy p 0) (get_or phy (p + 1) 0) in
        let moves = header_moves p (get_or phy p 0) (get_or phy (p + 1) 0) (omega arith) in
        rw (walk_from_block size limit phy h rounds p log more block) (
          Settles->>= size head.phy_idx _ _
            (copy_words-Advances size limit phy (omega arith) (omega arith) 4 0 head.blk_idx
              head.word_en head.phy_idx log e)
            λ p' log' q e'.
              walk_from-Settles size limit phy rounds p' log' h k (omega arith) (omega arith) e')
  ]
]

-- A map of `size` bytes with a protected tail is walked to the end: no byte outside it is read,
-- and the result, `return (0)` or `return (EINVAL)`, has filled a logical map of `size` bytes.
pub logical_walk-Settles :
    (size protect : ℕ) (phy : List ℕ)
    → length phy ≡ size
    → size < 2 ^ 16
    → 0 < protect
    → 0 < size
    → Settles size (logical_walk size protect phy)
unfolding logical_walk
logical_walk-Settles size protect phy e small p s =
    walk_from-Settles size (size - protect) phy (size - protect + 1) 0 (replicate size 0xff)
      (omega arith) (omega arith) (omega arith) (omega arith) (length-replicate size 0xff)
