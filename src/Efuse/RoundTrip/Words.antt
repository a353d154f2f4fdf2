-- ===== src/Efuse/RoundTrip/Words.antt =====
-- Copying the words of a block whose bytes stand in the physical map.
use rtw88_pub.Base.{
  ℕ, ◌+◌, ◌*◌, ◌^◌, ◌≤◌, ◌<◌, ◌≡◌, arith, List, [], ◌∷◌, Option, none, some, set, length, ◌<<◌, u16,
  ap, ap₂, ◌∙◌,
}
use rtw88_pub.Efuse.{done, copy_words}
use rtw88_pub.Efuse.Total.{copy_words_skip, copy_words_take}
use rtw88_pub.Efuse.RoundTrip.Encoding.{payload, apply_words, At, Enabled}

module _ (size limit : ℕ) (phy : List ℕ) (inside : limit ≤ length phy)
    (small : limit < 2 ^ 16) where
  pub copy_words-apply :
      (ws : List (Option (ℕ × ℕ))) (i blk_idx word_en phy_idx : ℕ) (log : List ℕ)
      → At phy phy_idx (payload ws)
      → Enabled word_en i ws
      → phy_idx + length (payload ws) ≤ limit
      → blk_idx * 8 + (i + length ws) * 2 ≤ size
      → copy_words size limit phy (length ws) i blk_idx word_en phy_idx log
        ≡ done (phy_idx + length (payload ws), apply_words ws ((blk_idx << 3) + (i << 1)) log)
  copy_words-apply [] i blk_idx word_en phy_idx log a e h k =
      unfold copy_words in ap (λ n. done (n, log)) (omega arith)
  copy_words-apply (none ∷ ws) i blk_idx word_en phy_idx log a e h k =
      copy_words_skip size limit phy inside (length ws) i blk_idx word_en phy_idx log e.0
      ∙ copy_words-apply ws (i + 1) blk_idx word_en phy_idx log a e.1 h (omega arith)
      ∙ ap (λ n. done (phy_idx + length (payload ws), apply_words ws n log)) (omega arith)
  copy_words-apply (some (lo, hi) ∷ ws) i blk_idx word_en phy_idx log a e h k =
      let at = (blk_idx << 3) + (i << 1) in
      let log' = set (set log at lo) (at + 1) hi in
      let wrap : u16 (phy_idx + 2) ≡ phy_idx + 1 + 1 = omega arith in
      copy_words_take size limit phy inside (length ws) i blk_idx word_en phy_idx log e.0
        (omega arith) (omega arith)
      ∙ rw (a.0, a.1.0, wrap)
          (copy_words-apply ws (i + 1) blk_idx word_en (phy_idx + 1 + 1) log' a.1.1 e.1
              (omega arith) (omega arith)
            ∙ ap₂ (λ m n. done (m, apply_words ws n log')) (omega arith) (omega arith))
