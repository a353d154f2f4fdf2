-- ===== src/Efuse/RoundTrip/Encoding.antt =====
-- Blocks of four optional words, as bytes and as what they store in the logical map.
use rtw88_pub.Base.{
  ℕ, suc, ◌+◌, ◌*◌, ◌/◌, ◌%◌, ◌^◌, ◌≤◌, ◌<◌, ◌≡◌, arith, true, false, List, [], ◌∷◌, ◌++◌, Option,
  none, some, ltb, if◌then◌else◌, set, get_or, length, has, has-pow, testb, ap, ◌∙◌, subst,
}

-- A word is a low and a high byte; a block may leave words as they are.
pub record Block : Type 0 where
  pub idx : ℕ
  pub words : List (Option (ℕ × ℕ))

-- Bit `i` is set where word `i` is left out.
abbrev pub mask : List (Option (ℕ × ℕ)) → ℕ
mask [] = 0
mask (none ∷ ws) = 1 + 2 * mask ws
mask (some w ∷ ws) = 2 * mask ws

abbrev pub payload : List (Option (ℕ × ℕ)) → List ℕ
payload [] = []
payload (none ∷ ws) = payload ws
payload (some (lo, hi) ∷ ws) = lo ∷ hi ∷ payload ws

-- One byte for the first 16 blocks, two for the others.
unfoldable pub header : Block → List ℕ
header b =
    if ltb b.idx 16
    then (b.idx * 16 + mask b.words) ∷ []
    else (b.idx % 8 * 32 + 15) ∷ (b.idx / 8 * 16 + mask b.words) ∷ []

abbrev pub encode : Block → List ℕ
encode b = header b ++ payload b.words

abbrev pub encode_all : List Block → List ℕ
encode_all [] = []
encode_all (b ∷ bs) = encode b ++ encode_all bs

abbrev pub apply_words : List (Option (ℕ × ℕ)) → ℕ → List ℕ → List ℕ
apply_words [] i log = log
apply_words (none ∷ ws) i log = apply_words ws (i + 2) log
apply_words (some (lo, hi) ∷ ws) i log = apply_words ws (i + 2) (set (set log i lo) (i + 1) hi)

abbrev pub apply_block : Block → List ℕ → List ℕ
apply_block b log = apply_words b.words (b.idx * 8) log

abbrev pub apply_all : List Block → List ℕ → List ℕ
apply_all [] log = log
apply_all (b ∷ bs) log = apply_all bs (apply_block b log)

-- A block that the encoding can hold: four words, one of them present, inside a map of `size` bytes.
pub record IsBlock (size : ℕ) (b : Block) : Type 0 where
  pub four : length b.words ≡ 4
  pub present : mask b.words < 15
  pub small : b.idx < 128
  pub inside : b.idx * 8 + 8 ≤ size

-- The bytes stand in `phy` from `p` on.
abbrev pub At : List ℕ → ℕ → List ℕ → Type 0
At phy p [] = Unit {0}
At phy p (b ∷ bs) = (get_or phy p 0 ≡ b) × At phy (p + 1) bs

pub At-append :
    (phy : List ℕ) (p : ℕ) (xs ys : List ℕ)
    → At phy p (xs ++ ys)
    → At phy p xs × At phy (p + length xs) ys
At-append phy p [] ys a = (tt, subst (λ n. At phy n ys) (omega arith) a)
At-append phy p (x ∷ xs) ys a =
    let rest = At-append phy (p + 1) xs ys a.1 in
    ((a.0, rest.0), subst (λ n. At phy n ys) (omega arith) rest.1)

At-reads :
    (phy : List ℕ) (p : ℕ) (xs : List ℕ)
    → ((k : ℕ) → k < length xs → get_or phy (p + k) 0 ≡ get_or xs k 0)
    → At phy p xs
At-reads phy p [] h = tt
At-reads phy p (x ∷ xs) h = (
  ap (λ n. get_or phy n 0) (omega arith) ∙ h 0 (omega arith),
  At-reads phy (p + 1) xs λ k lt. ap (λ n. get_or phy n 0) (omega arith) ∙ h (suc k) (omega arith),
)

pub At-self : (xs : List ℕ) → At xs 0 xs
At-self xs = At-reads xs 0 xs (λ k lt. ap (λ n. get_or xs n 0) (omega arith))

-- The enables of the words from word `i` on, as `word_en` gives them.
abbrev pub Enabled : ℕ → ℕ → List (Option (ℕ × ℕ)) → Type 0
Enabled word_en i [] = Unit {0}
Enabled word_en i (none ∷ ws) = (has word_en (2 ^ i) ≡ true) × Enabled word_en (i + 1) ws
Enabled word_en i (some w ∷ ws) = (has word_en (2 ^ i) ≡ false) × Enabled word_en (i + 1) ws

odd_testb : (m : ℕ) → testb (1 + 2 * m) 0 ≡ true
unfolding testb
odd_testb m = ground arith

even_testb : (m : ℕ) → testb (2 * m) 0 ≡ false
unfolding testb
even_testb m = ground arith

testb_double : (m k : ℕ) → testb (2 * m) (suc k) ≡ testb m k
unfolding testb
testb_double m k = ap (λ n. testb n k) (omega arith)

testb_double_one : (m k : ℕ) → testb (1 + 2 * m) (suc k) ≡ testb m k
unfolding testb
testb_double_one m k = ap (λ n. testb n k) (omega arith)

Enabled-testb :
    (ws : List (Option (ℕ × ℕ))) (word_en i : ℕ)
    → ((k : ℕ) → testb word_en (i + k) ≡ testb (mask ws) k)
    → Enabled word_en i ws
Enabled-testb [] word_en i h = tt
Enabled-testb (none ∷ ws) word_en i h = (
  has-pow i word_en ∙ ap (testb word_en) (omega arith) ∙ h 0 ∙ odd_testb (mask ws),
  Enabled-testb ws word_en (i + 1)
      λ k. ap (testb word_en) (omega arith) ∙ h (suc k) ∙ testb_double_one (mask ws) k,
)
Enabled-testb (some w ∷ ws) word_en i h = (
  has-pow i word_en ∙ ap (testb word_en) (omega arith) ∙ h 0 ∙ even_testb (mask ws),
  Enabled-testb ws word_en (i + 1)
      λ k. ap (testb word_en) (omega arith) ∙ h (suc k) ∙ testb_double (mask ws) k,
)

pub Enabled-mask : (ws : List (Option (ℕ × ℕ))) → Enabled (mask ws) 0 ws
Enabled-mask ws = Enabled-testb ws (mask ws) 0 (λ k. ap (testb (mask ws)) (omega arith))
