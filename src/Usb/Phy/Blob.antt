-- ===== src/Usb/Phy/Blob.antt =====
-- The blob of tables: its format, written down independently of the loader.
use rtw88_pub.Base.{
  ℕ, suc, ◌+◌, ◌*◌, ◌/◌, ◌%◌, ◌^◌, ◌<◌, ◌≤◌, ◌≡◌, refl, ap, ap₂, ◌∙◌, arith, false, List, [], ◌∷◌,
  All, M, ◌>>=◌, pure, length, drop, get_or, le32dec, ltb, bind_ext,
}
use rtw88_pub.Usb.Softc.{UsbDevice, Softc}
use rtw88_pub.Usb.Phy.{phy_walk_table, words_at, load_tables, phy_load_blob}

pub record Table : Type 0 where
  pub kind : ℕ
  pub words : List ℕ

-- The bytes of a table and of tables, before the bytes `rest`.
pub word_bytes : List ℕ → List ℕ → List ℕ
word_bytes [] rest = rest
word_bytes (w ∷ ws) rest =
    w % 256 ∷ w / 2 ^ 8 % 256 ∷ w / 2 ^ 16 % 256 ∷ w / 2 ^ 24 % 256 ∷ word_bytes ws rest

pub encode_tables : List Table → List ℕ → List ℕ
encode_tables [] rest = rest
encode_tables (t ∷ tables) rest =
    t.kind ∷ 0 ∷ 0 ∷ 0 ∷ word_bytes (length t.words ∷ t.words) (encode_tables tables rest)

pub encode_blob : List Table → List ℕ → List ℕ
encode_blob tables rest =
    0x52 ∷ 0x38 ∷ 0x38 ∷ 0x54 ∷ 1 ∷ length tables ∷ 0 ∷ 0 ∷ encode_tables tables rest

abbrev pub IsTable : Table → Type 0
IsTable t = All (λ w. w < 2 ^ 32) (length t.words ∷ t.words)

word_whole :
    (w : ℕ)
    → w < 2 ^ 32
    → w % 256 + w / 2 ^ 8 % 256 * 2 ^ 8 + w / 2 ^ 16 % 256 * 2 ^ 16 + w / 2 ^ 24 % 256 * 2 ^ 24 ≡ w
word_whole w h = omega arith

length-word_bytes : (ws rest : List ℕ) → length (word_bytes ws rest) ≡ length ws * 4 + length rest
unfolding word_bytes
length-word_bytes [] rest = omega arith
length-word_bytes (w ∷ ws) rest = omega (arith, length-word_bytes ws rest)

drop-word_bytes : (ws rest : List ℕ) → drop (length ws * 4) (word_bytes ws rest) ≡ rest
unfolding word_bytes
drop-word_bytes [] rest = refl
drop-word_bytes (w ∷ ws) rest =
    ap (λ n. drop n (word_bytes (w ∷ ws) rest)) four ∙ drop-word_bytes ws rest
  where
    four : length (w ∷ ws) * 4 ≡ suc (suc (suc (suc (length ws * 4))))
    four = omega arith

words_at-word_bytes :
    (ws rest : List ℕ) → All (λ w. w < 2 ^ 32) ws → words_at (length ws) (word_bytes ws rest) ≡ ws
unfolding word_bytes words_at
words_at-word_bytes [] rest h = refl
words_at-word_bytes (w ∷ ws) rest h =
    ap₂ (λ x xs. x ∷ xs) (word_whole w h.0) (words_at-word_bytes ws rest h.1)

module _ {W : Type 0} (usb : UsbDevice W) where
  -- Every table in turn, up to the first that fails.
  pub load_all : List Table → M (Softc W) (Unit {0})
  load_all [] = pure tt
  load_all (t ∷ tables) = do applied ← phy_walk_table usb t.kind t.words; load_all tables

  -- One table of a blob that has room for it.
  load_tables-step :
      (ntables : ℕ) (p words after : List ℕ) (s : Softc W)
      → 8 ≤ length p
      → le32dec p 4 * 4 ≤ length (drop 8 p)
      → words_at (le32dec p 4) (drop 8 p) ≡ words
      → drop (le32dec p 4 * 4) (drop 8 p) ≡ after
      → load_tables usb (suc ntables) p s
        ≡ (phy_walk_table usb (get_or p 0 0) words >>= λ _. load_tables usb ntables after) s
  unfolding load_tables
  load_tables-step ntables p words after s h fits ws tail =
      let long : ltb (length p) 8 ≡ false = ground arith in
      let room : ltb (length (drop 8 p)) (le32dec p 4 * 4) ≡ false = ground arith in
      rw (load_tables, long, room)
        (ap₂ (λ x y. (phy_walk_table usb (get_or p 0 0) x >>= λ _. load_tables usb ntables y) s) ws
          tail)

  load_tables-encode_tables :
      (tables : List Table) (rest : List ℕ) (s : Softc W)
      → All IsTable tables
      → load_tables usb (length tables) (encode_tables tables rest) s ≡ load_all tables s
  unfolding encode_tables load_all word_bytes load_tables
  load_tables-encode_tables [] rest s ok = refl
  load_tables-encode_tables (t ∷ tables) rest s ok =
      let more = encode_tables tables rest in
      let count = word_whole (length t.words) ok.0.0 in
      load_tables-step (length tables) (encode_tables (t ∷ tables) rest) t.words more s
        (omega arith) (omega (arith, count, length-word_bytes t.words more))
        (ap (λ n. words_at n (word_bytes t.words more)) count
          ∙ words_at-word_bytes t.words more ok.0.1)
        (ap (λ n. drop (n * 4) (word_bytes t.words more)) count ∙ drop-word_bytes t.words more)
      ∙ bind_ext (phy_walk_table usb t.kind t.words) (λ _. load_tables usb (length tables) more)
          (λ _. load_all tables) (λ _ s'. load_tables-encode_tables tables rest s' ok.1) s

  -- Loading a blob in the format, with any bytes behind it, walks exactly its tables in their order,
  -- each with its kind and its words, and ends at the first that fails.
  pub phy_load_blob-encode_blob :
      (tables : List Table) (rest : List ℕ) (s : Softc W)
      → All IsTable tables
      → length tables < 2 ^ 8
      → phy_load_blob usb (encode_blob tables rest) s ≡ load_all tables s
  unfolding phy_load_blob encode_blob
  phy_load_blob-encode_blob tables rest s ok h =
      let long : ltb (length (encode_blob tables rest)) 8 ≡ false = ground arith in
      rw long (load_tables-encode_tables tables rest s ok)
