-- ===== src/Regd.antt =====
-- sys/dev/rtw88/rtw88_regd.c and rtw88_regd.h: the table of countries and the code that applies one.
-- A country is its two letters, as ASCII codes.
pub mod Lookup
use rtw88_pub.Base.{
  ℕ, Bool, true, false, ◌&&◌, List, [], ◌∷◌, M, ◌>>=◌, ◌>>◌, modify, ◌==◌, if◌then◌else◌,
}
use rtw88_pub.Device.{Dev, regd_change, debug_inc}

-- `enum rtw88_regd_code`.
abbrev pub fcc : ℕ
fcc = 0

abbrev pub etsi : ℕ
etsi = 1

abbrev pub mkk : ℕ
mkk = 2

abbrev pub ic : ℕ
ic = 3

abbrev pub kcc : ℕ
kcc = 4

abbrev pub acma : ℕ
acma = 5

abbrev pub chile : ℕ
chile = 6

abbrev pub ukraine : ℕ
ukraine = 7

abbrev pub mexico : ℕ
mexico = 8

abbrev pub cn : ℕ
cn = 9

abbrev pub qatar : ℕ
qatar = 10

abbrev pub uk : ℕ
uk = 11

abbrev pub ww : ℕ
ww = 15

pub record RegdEntry : Type 0 where
  pub first : ℕ
  pub second : ℕ
  pub regd_2g : ℕ
  pub regd_5g : ℕ

abbrev entry : ℕ → ℕ → ℕ → ℕ → RegdEntry
entry a b g2 g5 = record { first = a; second = b; regd_2g = g2; regd_5g = g5 }

-- The entries before the sentinel.
abbrev pub regd_table : List RegdEntry
regd_table =
    entry 85 83 fcc fcc
    ∷ entry 67 65 ic ic
    ∷ entry 77 88 mexico mexico
    ∷ entry 67 76 chile chile
    ∷ entry 71 66 uk uk
    ∷ entry 68 69 etsi etsi
    ∷ entry 70 82 etsi etsi
    ∷ entry 73 84 etsi etsi
    ∷ entry 69 83 etsi etsi
    ∷ entry 78 76 etsi etsi
    ∷ entry 80 76 etsi etsi
    ∷ entry 83 69 etsi etsi
    ∷ entry 70 73 etsi etsi
    ∷ entry 65 84 etsi etsi
    ∷ entry 66 69 etsi etsi
    ∷ entry 67 72 etsi etsi
    ∷ entry 67 90 etsi etsi
    ∷ entry 68 75 etsi etsi
    ∷ entry 73 69 etsi etsi
    ∷ entry 78 79 etsi etsi
    ∷ entry 80 84 etsi etsi
    ∷ entry 71 82 etsi etsi
    ∷ entry 72 85 etsi etsi
    ∷ entry 84 82 etsi etsi
    ∷ entry 82 85 etsi etsi
    ∷ entry 85 65 ukraine ukraine
    ∷ entry 65 85 acma acma
    ∷ entry 78 90 acma acma
    ∷ entry 74 80 mkk mkk
    ∷ entry 75 82 kcc kcc
    ∷ entry 67 78 cn cn
    ∷ entry 72 75 etsi etsi
    ∷ entry 84 87 fcc fcc
    ∷ entry 83 71 etsi etsi
    ∷ entry 77 89 etsi etsi
    ∷ entry 84 72 etsi etsi
    ∷ entry 80 72 fcc fcc
    ∷ entry 73 68 etsi etsi
    ∷ entry 73 78 etsi etsi
    ∷ entry 65 69 etsi etsi
    ∷ entry 83 65 etsi etsi
    ∷ entry 81 65 qatar qatar
    ∷ entry 73 76 etsi etsi
    ∷ entry 90 65 etsi etsi
    ∷ entry 66 82 fcc fcc
    ∷ entry 65 82 fcc fcc
    ∷ []

abbrev pub sentinel : RegdEntry
sentinel = entry 0 0 ww ww

pub matches : ℕ → ℕ → RegdEntry → Bool
matches a b e = e.first == a && e.second == b

pub lookup_from : List RegdEntry → ℕ → ℕ → RegdEntry
lookup_from [] a b = sentinel
lookup_from (e ∷ rest) a b = if matches a b e then e else lookup_from rest a b

pub regd_lookup : ℕ → ℕ → RegdEntry
regd_lookup a b = lookup_from regd_table a b

module _ {B : Type 0} where
  -- "WW", worldwide.
  pub regd_init : M (Dev B) (Unit {0})
  regd_init = modify (λ (d : Dev B). record d {
    regd = record { country = 0x57 ∷ 0x57 ∷ 0 ∷ []; regd_2g = ww; regd_5g = ww };
  })

  -- `iso2` is not null.
  pub regd_apply : ℕ → ℕ → M (Dev B) (Unit {0})
  regd_apply a b = do
    modify (λ (d : Dev B). record d {
      regd = record {
        country = a ∷ b ∷ 0 ∷ [];
        regd_2g = (regd_lookup a b).regd_2g;
        regd_5g = (regd_lookup a b).regd_5g;
      };
    })
    debug_inc regd_change
