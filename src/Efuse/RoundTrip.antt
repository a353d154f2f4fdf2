-- ===== src/Efuse/RoundTrip.antt =====
-- The block encoding of the efuse map, written down independently of the walk, and the walk of an
-- encoded map.
pub mod Encoding
pub mod Words
use rtw88_pub.Base.{
  ℕ, zero, suc, ◌+◌, ◌-◌, ◌*◌, ◌/◌, ◌%◌, ◌^◌, ◌≤◌, ◌<◌, ◌≡◌, refl, arith, Bool, true, false, List,
  [], ◌∷◌, ◌++◌, All, bit_and, bit_or, bit_and_low, bit_and_field, bit_or_field, bit_or_comm, ltb,
  ◌==◌, if◌then◌else◌, ◌>>>◌, ◌<<◌, u16, get_or, length, length-append, replicate, ap, ap₂, subst,
  sym, ◌∙◌, Bool-cases, inl, inr, ltb→lt,
}
use rtw88_pub.Efuse.{
  done, ◌>>=◌, Header, decode_header, copy_words, is_end, logical_walk, walk_from,
}
use rtw88_pub.Efuse.Total.{walk_from_limit, walk_from_end, walk_from_block}
use native.Mathlib.Decide.{dec_lt}
use Encoding.{
  Block, IsBlock, header, encode, encode_all, apply_block, apply_all, payload, mask, apply_words,
  At, At-self, At-append, Enabled-mask,
}
use Words.{copy_words-apply}

low_five : (x : ℕ) → bit_and x 0x1f ≡ x % 32
low_five x = bit_and_low 5 x

low_four : (x : ℕ) → bit_and x 0xf ≡ x % 16
low_four x = bit_and_low 4 x

high_four : (x : ℕ) → bit_and x 0xf0 ≡ x / 16 % 16 * 16
high_four x = bit_and_field 4 4 x

low_three : (x : ℕ) → bit_and x 0x07 ≡ x % 8
low_three x = bit_and_low 3 x

joined : (hi lo : ℕ) → lo < 8 → bit_or (hi * 8) lo ≡ lo + hi * 8
joined hi lo h = bit_or_comm (hi * 8) lo ∙ bit_or_field 3 lo hi h

-- A one-byte header and whatever byte follows it.
short_header :
    (p idx m h2 : ℕ)
    → idx < 16
    → m < 15
    → p + 1 < 2 ^ 16
    → (is_end (idx * 16 + m) h2 ≡ false)
      × (decode_header p (idx * 16 + m) h2 ≡ record { blk_idx = idx; word_en = m; phy_idx = p + 1 })
unfolding is_end decode_header
short_header p idx m h2 hi hm hp =
    ground (arith, low_five (idx * 16 + m), low_four (idx * 16 + m), high_four (idx * 16 + m))

-- The block index of a two-byte header: four high bits of the second, three of the first.
long_index :
    (idx m : ℕ)
    → idx < 128
    → m < 15
    → bit_or (bit_and (idx / 8 * 16 + m) 0xf0 >>> 1) (bit_and ((idx % 8 * 32 + 15) >>> 5) 0x07)
      ≡ idx
long_index idx m hi hm =
    let hi_bits : bit_and (idx / 8 * 16 + m) 0xf0 >>> 1 ≡ idx / 8 * 8 =
      omega (arith, high_four (idx / 8 * 16 + m)) in
    let lo_bits : bit_and ((idx % 8 * 32 + 15) >>> 5) 0x07 ≡ idx % 8 =
      omega (arith, low_three ((idx % 8 * 32 + 15) / 32)) in
    ap₂ bit_or hi_bits lo_bits ∙ joined (idx / 8) (idx % 8) (omega arith) ∙ omega arith

long_header :
    (p idx m : ℕ)
    → idx < 128
    → m < 15
    → p + 2 < 2 ^ 16
    → (is_end (idx % 8 * 32 + 15) (idx / 8 * 16 + m) ≡ false)
      × (decode_header p (idx % 8 * 32 + 15) (idx / 8 * 16 + m)
          ≡ record { blk_idx = idx; word_en = m; phy_idx = p + 2 })
unfolding is_end decode_header
long_header p idx m hi hm hp =
    ground
      (arith, low_five (idx % 8 * 32 + 15), low_four (idx / 8 * 16 + m), long_index idx m hi hm)

abbrev decoded : Block → ℕ → Header
decoded b p = record { blk_idx = b.idx; word_en = mask b.words; phy_idx = p + length (header b) }

-- What a header decodes to, with the byte after it.
abbrev Decodes : Block → List ℕ → ℕ → List ℕ → Type 0
Decodes b phy p head =
    At phy p head
    → (is_end (get_or phy p 0) (get_or phy (p + 1) 0) ≡ false)
      × (decode_header p (get_or phy p 0) (get_or phy (p + 1) 0)
          ≡ record { blk_idx = b.idx; word_en = mask b.words; phy_idx = p + length head })

header-Decodes :
    (size : ℕ) (b : Block) (phy : List ℕ) (p : ℕ)
    → IsBlock size b
    → p + 2 < 2 ^ 16
    → Decodes b phy p (header b)
unfolding header
header-Decodes size b phy p ok h = elim (Bool-cases (ltb b.idx 16)) [
  | inl short ↦ rw short λ at. rw at.0 (
      short_header p b.idx (mask b.words) (get_or phy (p + 1) 0) (ltb→lt _ _ short) ok.present
        (omega arith))
  | inr long ↦
      rw long λ at. rw (at.0, at.1.0) (long_header p b.idx (mask b.words) ok.small ok.present h)
]

length-header : (b : Block) → (0 < length (header b)) × (length (header b) ≤ 2)
unfolding header
length-header b = ground arith

length-encode_all :
    (b : Block) (bs : List Block)
    → length (encode_all (b ∷ bs))
      ≡ length (header b) + length (payload b.words) + length (encode_all bs)
length-encode_all b bs = omega (
  arith,
  length-append (header b ++ payload b.words) (encode_all bs),
  length-append (header b) (payload b.words),
)

is_end_erased : (h2 : ℕ) → is_end 0xff h2 ≡ true
unfolding is_end
is_end_erased h2 = refl

module _ (size limit : ℕ) (phy : List ℕ) (inside : limit < length phy)
    (small : limit + 1 < 2 ^ 16) where
  abbrev words_end : Block → ℕ → ℕ
  words_end b p = p + length (header b) + length (payload b.words)

  -- One round of the walk at a block.
  walk_from-block :
      (b : Block) (rounds p : ℕ) (log : List ℕ)
      → IsBlock size b
      → At phy p (header b)
      → At phy (p + length (header b)) (payload b.words)
      → words_end b p ≤ limit
      → walk_from size limit phy (suc rounds) p log
        ≡ walk_from size limit phy rounds (words_end b p) (apply_block b log)
  walk_from-block b rounds p log ok head words h =
      let more : p < limit = omega (arith, length-header b) in
      let decodes = header-Decodes size b phy p ok (omega arith) head in
      let room = ok.inside in
      let copied =
        copy_words-apply size limit phy (omega arith) (omega arith) b.words 0 b.idx (mask b.words)
          (p + length (header b)) log words (Enabled-mask b.words) h (rw ok.four (omega arith)) in
      let copied_four = rw ok.four at copied in
      walk_from_block size limit phy inside rounds p log more decodes.0
      ∙ rw decodes.1 (
          rw (copied_four, ◌>>=◌)
            (ap (λ n. walk_from size limit phy rounds (words_end b p) (apply_words b.words n log))
              (omega arith)))

  -- The loop over the blocks from `p` on, with the erased tail behind them.
  walk_from-encode :
      (bs : List Block) (rounds p : ℕ) (log : List ℕ)
      → At phy p (encode_all bs)
      → At phy (p + length (encode_all bs)) (0xff ∷ [])
      → All (IsBlock size) bs
      → p + length (encode_all bs) ≤ limit
      → limit < rounds + p
      → walk_from size limit phy rounds p log ≡ done (apply_all bs log)
  walk_from-encode bs zero p log at tail ok h k = absurd (omega arith)
  walk_from-encode [] (suc rounds) p log at tail ok h k = elim (dec_lt p limit) [
    | no past ↦ walk_from_limit size limit phy inside rounds p log (omega arith)
    | yes more ↦
        let erased : get_or phy p 0 ≡ 0xff = ap (λ n. get_or phy n 0) (omega arith) ∙ tail.0 in
        walk_from_end size limit phy inside rounds p log more (rw erased (is_end_erased _))
  ]
  walk_from-encode (b ∷ bs) (suc rounds) p log at tail ok h k =
      let parts = At-append phy p (header b ++ payload b.words) (encode_all bs) at in
      let block = At-append phy p (header b) (payload b.words) parts.0 in
      let sizes = length-encode_all b bs in
      let here : p + length (header b ++ payload b.words) ≡ words_end b p =
        omega (arith, length-append (header b) (payload b.words)) in
      walk_from-block b rounds p log ok.0 block.0 block.1 (omega arith)
      ∙ walk_from-encode bs rounds (words_end b p) (apply_block b log) (rw here at parts.1)
          (subst (λ n. At phy n (0xff ∷ [])) (omega arith) tail) ok.1 (omega arith)
          (omega (arith, length-header b))

-- The walk is the inverse of the block encoding: of a map that holds the encoding of any blocks of
-- at least one word each, erased behind them and with the encoding outside the protected tail, it
-- makes the erased logical map with the words of the blocks stored in order.
pub logical_walk-encode_all :
    (size protect : ℕ) (bs : List Block) (rest : List ℕ)
    → length (encode_all bs ++ 0xff ∷ [] ++ rest) ≡ size
    → size < 2 ^ 16
    → 0 < protect
    → length (encode_all bs) ≤ size - protect
    → All (IsBlock size) bs
    → logical_walk size protect (encode_all bs ++ 0xff ∷ [] ++ rest)
      ≡ done (apply_all bs (replicate size 0xff))
unfolding logical_walk
logical_walk-encode_all size protect bs rest e small p fits ok =
    let phy = encode_all bs ++ 0xff ∷ [] ++ rest in
    let whole = At-append phy 0 (encode_all bs ++ 0xff ∷ []) rest (At-self phy) in
    let sizes = length-append (encode_all bs ++ 0xff ∷ []) rest in
    let sizes' = length-append (encode_all bs) (0xff ∷ []) in
    let parts = At-append phy 0 (encode_all bs) (0xff ∷ []) whole.0 in
    walk_from-encode size (size - protect) phy (omega arith) (omega arith) bs (size - protect + 1) 0
      (replicate size 0xff) parts.0 parts.1 ok (omega arith) (omega arith)
