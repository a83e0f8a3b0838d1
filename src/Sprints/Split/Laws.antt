-- ===== src/Sprints/Split/Laws.antt =====
-- The splitter of cmd/sprint3 against `strings.Split`, and the directory of a path.
use tessera_transparency.Base.{
  ℕ, zero, suc, ◌-◌, ◌+◌, ◌≡◌, refl, ◌≢◌, ap, sym, ◌∙◌, List, [], ◌∷◌, ◌++◌, append_assoc,
  append-nil, Bytes, length, length-append, take, drop, get_or, bytes_eq, ◌==◌, codes, arith, Lacks,
  false, ◌≤◌, ◌<◌, Bool-cases, inl, inr,
}
use tessera_transparency.Text.Split.{split, push, split-append, split_of_Lacks}
use tessera_transparency.Signer.Lines.{newline, IsLine}
use tessera_transparency.Sprints.Split.{
  slice, split_loop, split_by, keep_filled, filled_lines, filled_lines_by, dir_loop, dir_of,
}

take-append : (p r : Bytes) → take (length p) (p ++ r) ≡ p
take-append [] r = refl
take-append (c ∷ p) r = ap (λ t. c ∷ t) (take-append p r)

drop-append : (a r : Bytes) → drop (length a) (a ++ r) ≡ r
drop-append [] r = refl
drop-append (c ∷ a) r = drop-append a r

slice_lem :
    (s a p r : Bytes) (start i : ℕ)
    → s ≡ a ++ (p ++ r)
    → start ≡ length a
    → i ≡ length a + length p
    → slice s start i ≡ p
slice_lem s a p r start i es estart ei =
    let width : i - start ≡ length p = omega arith in
    rw (width, es, estart) (ap (take (length p)) (drop-append a (p ++ r)) ∙ take-append p r)

-- The first part, with a text in front.
abbrev attach : Bytes → List Bytes → List Bytes
attach p [] = p ∷ []
attach p (q ∷ qs) = (p ++ q) ∷ qs

attach-nil : (sep : ℕ) (s : Bytes) → attach [] (split sep s) ≡ split sep s
unfolding split
attach-nil sep [] = refl
attach-nil sep (c ∷ s) = elim (Bool-cases (c == sep)) [
  | inl cut ↦ rw cut
  | inr on ↦ rw on (attach-push c (split sep s))
]
  where
    attach-push : (c : ℕ) (qs : List Bytes) → attach [] (push c qs) ≡ push c qs
    attach-push c [] = refl
    attach-push c (q ∷ qs) = refl

attach-push : (p : Bytes) (c : ℕ) (qs : List Bytes) → attach (p ++ c ∷ []) qs ≡ attach p (push c qs)
attach-push p c [] = refl
attach-push p c (q ∷ qs) = ap (λ t. t ∷ qs) (append_assoc p (c ∷ []) q)

-- The loop has the parts that are complete, the part that it is in, and what is left.
split_loop_lem :
    (sep : ℕ) (s a p r : Bytes) (start i : ℕ) (out : List Bytes)
    → s ≡ a ++ (p ++ r)
    → start ≡ length a
    → i ≡ length a + length p
    → split_loop sep s i start r out ≡ out ++ attach p (split sep r)
unfolding split_loop split
split_loop_lem sep s a p [] start i out es estart ei =
    let whole : length s ≡ length a + length p =
      ap length es ∙ omega (arith, length-append a (p ++ []), length-append p []) in
    ap (λ q. out ++ q ∷ [])
      (slice_lem s a p [] start (length s) es estart whole ∙ sym (append-nil p))
split_loop_lem sep s a p (c ∷ r) start i out es estart ei = elim (Bool-cases (c == sep)) [
  | inl cut ↦
      let at : s ≡ (a ++ (p ++ c ∷ [])) ++ r =
        es ∙ sym (append_assoc a (p ++ c ∷ []) r ∙ ap (λ t. a ++ t) (append_assoc p (c ∷ []) r)) in
      let here : suc i ≡ length (a ++ (p ++ c ∷ [])) =
        omega (arith, length-append a (p ++ c ∷ []), length-append p (c ∷ [])) in
      rw cut (
        split_loop_lem sep s (a ++ (p ++ c ∷ [])) [] r (suc i) (suc i) (out ++ slice s start i ∷ [])
          at here (omega arith)
        ∙ append_assoc out (slice s start i ∷ []) (attach [] (split sep r))
        ∙ ap (λ q. out ++ q ∷ attach [] (split sep r))
            (slice_lem s a p (c ∷ r) start i es estart ei)
        ∙ ap (λ qs. out ++ p ∷ qs) (attach-nil sep r)
        ∙ ap (λ q. out ++ q ∷ split sep r) (sym (append-nil p)))
  | inr on ↦
      let at : s ≡ a ++ ((p ++ c ∷ []) ++ r) =
        es ∙ sym (ap (λ t. a ++ t) (append_assoc p (c ∷ []) r)) in
      rw on (
        split_loop_lem sep s a (p ++ c ∷ []) r start (suc i) out at estart
          (omega (arith, length-append p (c ∷ [])))
        ∙ ap (λ qs. out ++ qs) (attach-push p c (split sep r)))
]

-- The hand-written splitter of cmd/sprint3 is `strings.Split`, for every text and separator.
pub split_by_lem : (sep : ℕ) (s : Bytes) → split_by sep s ≡ split sep s
unfolding split_by
split_by_lem sep s = split_loop_lem sep s [] [] s 0 0 [] refl refl (omega arith) ∙ attach-nil sep s

-- The two line splitters agree.
pub filled_lines_by_lem : (s : Bytes) → filled_lines_by s ≡ filled_lines s
unfolding filled_lines_by filled_lines
filled_lines_by_lem s = ap keep_filled (split_by_lem newline s)

bytes_eq-nil : (l : Bytes) → l ≢ [] → bytes_eq l [] ≡ false
bytes_eq-nil [] present = absurd (present refl)
bytes_eq-nil (c ∷ l) present = refl

pub filled_lines_pair :
    (l m : Bytes)
    → IsLine l
    → IsLine m
    → filled_lines (l ++ newline ∷ (m ++ newline ∷ [])) ≡ l ∷ m ∷ []
unfolding filled_lines
filled_lines_pair l m hl hm = rw (
  split-append newline l (m ++ newline ∷ []) hl.one_line,
  split-append newline m [] hm.one_line,
  split_of_Lacks newline [] tt,
  keep_filled,
  bytes_eq-nil l hl.present,
  keep_filled,
  bytes_eq-nil m hm.present,
  keep_filled,
)

get_or-append : (a r : Bytes) (k j : ℕ) → k ≡ length a + j → get_or (a ++ r) k 0 ≡ get_or r j 0
get_or-append [] r k j e = ap (λ n. get_or r n 0) (omega arith)
get_or-append (c ∷ a) r zero j e = absurd (omega arith)
get_or-append (c ∷ a) r (suc k) j e = get_or-append a r k j (omega arith)

Lacks-get_or : (c : ℕ) (b : Bytes) (j : ℕ) → Lacks c b → j < length b → (get_or b j 0 == c) ≡ false
Lacks-get_or c [] j h inside = absurd (omega arith)
Lacks-get_or c (d ∷ b) zero (hd, h) inside = ground arith
Lacks-get_or c (d ∷ b) (suc j) (hd, h) inside = Lacks-get_or c b j h (omega arith)

dir_loop_at :
    (a b : Bytes) (k i : ℕ)
    → Lacks b'/' b
    → k ≡ length a + i
    → i ≤ length b
    → dir_loop (a ++ b'/' ∷ b) (suc k) ≡ a
unfolding dir_loop
dir_loop_at a b k zero h e inside =
    let here : get_or (a ++ b'/' ∷ b) k 0 ≡ b'/' = get_or-append a (b'/' ∷ b) k 0 e in
    let size : k ≡ length a = omega arith in rw here (rw size (take-append a (b'/' ∷ b)))
dir_loop_at a b zero (suc i) h e inside = absurd (omega arith)
dir_loop_at a b (suc k) (suc i) h e inside =
    let here : get_or (a ++ b'/' ∷ b) (suc k) 0 ≡ get_or b i 0 =
      get_or-append a (b'/' ∷ b) (suc k) (suc i) e in
    let other : (get_or (a ++ b'/' ∷ b) (suc k) 0 == b'/') ≡ false =
      rw here (Lacks-get_or b'/' b i h (omega arith)) in
    rw other (dir_loop_at a b k i h (omega arith) (omega arith))

dir_loop_none :
    (path : Bytes) (i : ℕ) → Lacks b'/' path → i ≤ length path → dir_loop path i ≡ codes "."
unfolding dir_loop
dir_loop_none path zero h inside = refl
dir_loop_none path (suc i) h inside =
    rw (Lacks-get_or b'/' path i h (omega arith)) (dir_loop_none path i h (omega arith))

-- The directory of a path is what stands before its last slash, and `.` where it has none.
pub dir_of_lem :
    (a b : Bytes) → Lacks b'/' b → (dir_of (a ++ b'/' ∷ b) ≡ a) × (dir_of b ≡ codes ".")
unfolding dir_of
dir_of_lem a b h =
    let size : length (a ++ b'/' ∷ b) ≡ suc (length a + length b) =
      omega (arith, length-append a (b'/' ∷ b)) in
    (
      ap (dir_loop (a ++ b'/' ∷ b)) size
          ∙ dir_loop_at a b (length a + length b) (length b) h refl (omega arith),
      dir_loop_none b (length b) h (omega arith),
    )
