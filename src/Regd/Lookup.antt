-- ===== src/Regd/Lookup.antt =====
-- What the lookup finds for any two letters.
use rtw88_pub.Base.{
  ℕ, ◌≡◌, refl, ap, arith, ◌⊎◌, inl, inr, true, false, List, [], ◌∷◌, All, Bool-cases,
}
use rtw88_pub.Regd.{RegdEntry, regd_table, sentinel, matches, lookup_from, regd_lookup, ww}

-- An entry of a list.
abbrev pub Among : List RegdEntry → RegdEntry → Type 0
Among [] e = ⊥
Among (x ∷ xs) e = (e ≡ x) ⊎ Among xs e

lookup_from-finds :
    (table : List RegdEntry) (a b : ℕ)
    → (Among table (lookup_from table a b) × (matches a b (lookup_from table a b) ≡ true))
      ⊎ (All (λ e. matches a b e ≡ false) table × (lookup_from table a b ≡ sentinel))
unfolding lookup_from
lookup_from-finds [] a b = inr (tt, refl)
lookup_from-finds (x ∷ xs) a b = elim (Bool-cases (matches a b x)) [
  | inl h ↦ inl (rw (lookup_from, h) (inl refl, h))
  | inr h ↦ elim (lookup_from-finds xs a b) [
    | inl (found, k) ↦ inl (rw (lookup_from, h) (inr found, k))
    | inr (none_of, k) ↦ inr ((h, none_of), rw (lookup_from, h) k)
  ]
]

matches_back : (a b : ℕ) (e : RegdEntry) → matches a b e ≡ true → (e.first ≡ a) × (e.second ≡ b)
unfolding matches
matches_back a b e h = (ground arith, ground arith)

listed_or_ww :
    (a b : ℕ)
    → (Among regd_table (regd_lookup a b)
        × ((regd_lookup a b).first ≡ a)
        × ((regd_lookup a b).second ≡ b))
      ⊎ (All (λ e. matches a b e ≡ false) regd_table
          × ((regd_lookup a b).regd_2g ≡ ww)
          × ((regd_lookup a b).regd_5g ≡ ww))
unfolding regd_lookup
listed_or_ww a b = elim (lookup_from-finds regd_table a b) [
  | inl (among, h) ↦
      let (x, y) = matches_back a b (lookup_from regd_table a b) h in inl (among, x, y)
  | inr (no_one, h) ↦
      inr (no_one, ap (λ (e : RegdEntry). e.regd_2g) h, ap (λ (e : RegdEntry). e.regd_5g) h)
]

own_letters : All (λ e. regd_lookup e.first e.second ≡ e) regd_table
unfolding regd_lookup lookup_from matches
own_letters = (
  refl,
  (
    refl,
    (
      refl,
      (
        refl,
        (
          refl,
          (
            refl,
            (
              refl,
              (
                refl,
                (
                  refl,
                  (
                    refl,
                    (
                      refl,
                      (
                        refl,
                        (
                          refl,
                          (
                            refl,
                            (
                              refl,
                              (
                                refl,
                                (
                                  refl,
                                  (
                                    refl,
                                    (
                                      refl,
                                      (
                                        refl,
                                        (
                                          refl,
                                          (
                                            refl,
                                            (
                                              refl,
                                              (
                                                refl,
                                                (
                                                  refl,
                                                  (
                                                    refl,
                                                    (
                                                      refl,
                                                      (
                                                        refl,
                                                        (
                                                          refl,
                                                          (
                                                            refl,
                                                            (
                                                            refl,
                                                            (
                                                            refl,
                                                            (
                                                            refl,
                                                            (
                                                            refl,
                                                            (
                                                            refl,
                                                            (
                                                            refl,
                                                            (
                                                            refl,
                                                            (
                                                            refl,
                                                            (
                                                            refl,
                                                            (
                                                            refl,
                                                            (
                                                            refl,
                                                            (
                                                            refl,
                                                            (refl, (refl, (refl, (refl, tt)))),
                                                            ),
                                                            ),
                                                            ),
                                                            ),
                                                            ),
                                                            ),
                                                            ),
                                                            ),
                                                            ),
                                                            ),
                                                            ),
                                                            ),
                                                          ),
                                                        ),
                                                      ),
                                                    ),
                                                  ),
                                                ),
                                              ),
                                            ),
                                          ),
                                        ),
                                      ),
                                    ),
                                  ),
                                ),
                              ),
                            ),
                          ),
                        ),
                      ),
                    ),
                  ),
                ),
              ),
            ),
          ),
        ),
      ),
    ),
  ),
)

-- The domains that the code looks up for two letters are those of a table entry that has these
-- letters or, when no entry has them, the worldwide ones; and for each of the 46 entries, looking up
-- its own letters finds that entry and no other.
pub regd_lookup-table :
    ((a b : ℕ)
      → (Among regd_table (regd_lookup a b)
          × ((regd_lookup a b).first ≡ a)
          × ((regd_lookup a b).second ≡ b))
        ⊎ (All (λ e. matches a b e ≡ false) regd_table
            × ((regd_lookup a b).regd_2g ≡ ww)
            × ((regd_lookup a b).regd_5g ≡ ww)))
    × All (λ e. regd_lookup e.first e.second ≡ e) regd_table
regd_lookup-table = (listed_or_ww, own_letters)
