-- ===== src/Bench/Latency/Orders.antt =====
-- The sorted durations of `runLatencyLevel` do not depend on the order in which they came.
use mathlib.Core.Path.{subst}
use tessera_transparency.Base.{
  ℕ, ◌≤◌, ◌<◌, ◌≡◌, false, refl, ap, sym, ◌∙◌, List, [], ◌∷◌, ◌++◌, leb, arith, Bool-cases, inl,
  inr, leb→le, le→leb,
}
use tessera_transparency.Bench.Latency.{insert, sort}

lt→leb-false : (x y : ℕ) → x < y → leb y x ≡ false
lt→leb-false x y h = ground arith

insert_front : (x z : ℕ) (ds : List ℕ) → x ≤ z → insert x (z ∷ ds) ≡ x ∷ z ∷ ds
unfolding insert
insert_front x z ds h = rw (le→leb x z h)

insert_behind : (x z : ℕ) (ds : List ℕ) → z < x → insert x (z ∷ ds) ≡ z ∷ insert x ds
unfolding insert
insert_behind x z ds h = rw (lt→leb-false z x h)

insert_lt : (x y : ℕ) (ds : List ℕ) → x < y → insert x (insert y ds) ≡ insert y (insert x ds)
unfolding insert
insert_lt x y [] h = insert_front x y [] (omega arith) ∙ sym (insert_behind y x [] h)
insert_lt x y (z ∷ ds) h = elim (Bool-cases (leb x z)) [
  | inr far ↦
      let far' : z < x = ground arith in
      ap (insert x) (insert_behind y z ds (omega arith))
      ∙ insert_behind x z (insert y ds) far'
      ∙ ap (λ l. z ∷ l) (insert_lt x y ds h)
      ∙ sym (
          ap (insert y) (insert_behind x z ds far') ∙ insert_behind y z (insert x ds) (omega arith))
  | inl near ↦
      let near' : x ≤ z = leb→le x z near in
      elim (Bool-cases (leb y z)) [
        | inl le ↦
            ap (insert x) (insert_front y z ds (leb→le y z le))
            ∙ insert_front x y (z ∷ ds) (omega arith)
            ∙ sym (
                ap (insert y) (insert_front x z ds near')
                ∙ insert_behind y x (z ∷ ds) h
                ∙ ap (λ l. x ∷ l) (insert_front y z ds (leb→le y z le)))
        | inr gt ↦
            let gt' : z < y = ground arith in
            ap (insert x) (insert_behind y z ds gt')
            ∙ insert_front x z (insert y ds) near'
            ∙ sym (
                ap (insert y) (insert_front x z ds near')
                ∙ insert_behind y x (z ∷ ds) h
                ∙ ap (λ l. x ∷ l) (insert_behind y z ds gt'))
      ]
]

insert_comm : (x y : ℕ) (ds : List ℕ) → insert x (insert y ds) ≡ insert y (insert x ds)
insert_comm x y ds = elim (Bool-cases (leb x y)) [
  | inr gt ↦ sym (insert_lt y x ds (ground arith))
  | inl le ↦ elim (Bool-cases (leb y x)) [
    | inr lt ↦ insert_lt x y ds (ground arith)
    | inl ge ↦
        let same : x ≡ y = ground arith in
        subst (λ w. insert x (insert w ds) ≡ insert w (insert x ds)) same refl
  ]
]

pub sort-snoc : (d : ℕ) (ds : List ℕ) → sort (ds ++ d ∷ []) ≡ insert d (sort ds)
unfolding sort
sort-snoc d [] = refl
sort-snoc d (x ∷ ds) = rw (sort-snoc d ds) (insert_comm x d (sort ds))

pub sort-snoc-snoc :
    (a b : ℕ) (ds es : List ℕ)
    → sort ds ≡ sort es
    → sort ((ds ++ a ∷ []) ++ b ∷ []) ≡ sort ((es ++ b ∷ []) ++ a ∷ [])
sort-snoc-snoc a b ds es same =
    sort-snoc b (ds ++ a ∷ [])
    ∙ ap (insert b) (sort-snoc a ds)
    ∙ insert_comm b a (sort ds)
    ∙ sym (
        sort-snoc a (es ++ b ∷ [])
        ∙ ap (insert a) (sort-snoc b es)
        ∙ ap (λ l. insert a (insert b l)) (sym same))
