-- ===== src/Loader/Parts.antt =====
-- What split_string makes of two and three parts.
use vimbax_ros2_driver.Common.{
  ℕ, zero, suc, ◌+◌, ◌≤◌, ◌≡◌, refl, ap, ◌∙◌, none, some, List, [], ◌∷◌, ◌++◌, length, take, drop,
  length-append, take-append, value, arith, ==_iff,
}
use vimbax_ros2_driver.Loader.{npos, index_of, find, push, add_part, split_from, split_string}
use vimbax_ros2_driver.Loader.Ends.{length-drop, substr-value}
use mathlib.Core.List.{append-nil}
use native.Mathlib.Nat.{zero-add}

-- A part without the separator.
abbrev pub Whole : ℕ → List ℕ → Type 0
Whole c part = index_of c part ≡ none

index_of-append : (c : ℕ) (a b : List ℕ) → Whole c a → index_of c (a ++ c ∷ b) ≡ some (length a)
unfolding index_of
index_of-append c [] b h = ground (arith, ==_iff c c)
index_of-append c (x ∷ a) b h = ground (arith, index_of-append c a b)

drop_past : (a b : List ℕ) (x : ℕ) → drop (length a + 1) (a ++ x ∷ b) ≡ b
drop_past [] b x = refl
drop_past (y ∷ a) b x =
    let e : suc (length a) + 1 ≡ suc (length a + 1) = omega arith in rw e (drop_past a b x)

drop-add : (m n : ℕ) (xs : List ℕ) → drop (m + n) xs ≡ drop n (drop m xs)
drop-add zero n xs = rw zero-add refl
drop-add (suc m) zero [] = let e : suc m + 0 ≡ suc m = omega arith in rw e refl
drop-add (suc m) (suc n) [] = let e : suc m + suc n ≡ suc (m + suc n) = omega arith in rw e refl
drop-add (suc m) n (x ∷ xs) =
    let e : suc m + n ≡ suc (m + n) = omega arith in rw e (drop-add m n xs)

take_whole : (n : ℕ) (xs : List ℕ) → length xs ≤ n → take n xs ≡ xs
take_whole zero [] h = refl
take_whole zero (x ∷ xs) h = absurd (omega arith)
take_whole (suc n) [] h = refl
take_whole (suc n) (x ∷ xs) h = ap (◌∷◌ x) (take_whole n xs (omega arith))

-- The last round, on what is left of the text from `start` on.
split_from-last :
    (c fuel start : ℕ) (text part : List ℕ)
    → drop start text ≡ part
    → start ≤ length text
    → length text ≤ npos
    → Whole c part
    → split_from c (suc fuel) start text ≡ value (push part [])
unfolding find split_from
split_from-last c fuel start text part d h fits w =
    let f : find c start text ≡ none = simp (find, d, w) in
    simp (
      split_from,
      f,
      substr-value start npos text h,
      d,
      take_whole npos part (omega (arith, length-drop start text, ap length d)),
    )

-- A round that finds a separator behind `part`.
split_from-more :
    (c fuel start : ℕ) (text part rest : List ℕ)
    → drop start text ≡ part ++ c ∷ rest
    → start ≤ length text
    → Whole c part
    → split_from c (suc fuel) start text
      ≡ add_part
          (value (take (start + length part) (part ++ c ∷ rest)))
          (split_from c fuel (start + length part + 1) text)
unfolding find split_from
split_from-more c fuel start text part rest d h w =
    let f : find c start text ≡ some (start + length part) =
      simp (find, d, index_of-append c part rest w) in
    simp (split_from, f, substr-value start (start + length part) text h, d)

split_string-split_from :
    (c : ℕ) (a b : List ℕ)
    → split_string c (a ++ c ∷ b) ≡ split_from c (length (a ++ c ∷ b) + 1) 0 (a ++ c ∷ b)
unfolding split_string
split_string-split_from c [] b = refl
split_string-split_from c (x ∷ a) b = refl

take_through : (n : ℕ) (b r : List ℕ) → take (n + length b) (b ++ r) ≡ b ++ take n r
take_through n [] r = let e : n + 0 ≡ n = omega arith in rw e refl
take_through n (x ∷ b) r =
    let e : n + suc (length b) ≡ suc (n + length b) = omega arith in
    rw e (ap (◌∷◌ x) (take_through n b r))

-- A text of two parts, the first of them behind `start` bytes that were read before.
split_from-pair :
    (c fuel start : ℕ) (text a b : List ℕ)
    → drop start text ≡ a ++ c ∷ b
    → start + length a + 1 ≤ length text
    → length text ≤ npos
    → drop (start + length a + 1) text ≡ b
    → Whole c a
    → Whole c b
    → split_from c (suc (suc fuel)) start text ≡ value (push (a ++ take start (c ∷ b)) (push b []))
split_from-pair c fuel start text a b d h fits d' wa wb =
    rw
      (
        split_from-more c (suc fuel) start text a b d (omega arith) wa,
        split_from-last c fuel (start + length a + 1) text b d' h fits wb,
        take_through start a (c ∷ b),
      )
      refl

-- A text of two parts without a separator of their own, no longer than size_t counts, is split into
-- these parts, less the empty ones.
pub split_string-pair :
    (c : ℕ) (a b : List ℕ)
    → length (a ++ c ∷ b) ≤ npos
    → Whole c a
    → Whole c b
    → split_string c (a ++ c ∷ b) ≡ value (push a (push b []))
split_string-pair c a b h wa wb =
    let e : length (a ++ c ∷ b) ≡ length a + suc (length b) = length-append a (c ∷ b) in
    let n : length (a ++ c ∷ b) + 1 ≡ suc (suc (length a + length b)) = omega arith in
    let s : split_from c (suc (suc (length a + length b))) 0 (a ++ c ∷ b)
        ≡ value (push (a ++ []) (push b [])) =
      split_from-pair c (length a + length b) 0 (a ++ c ∷ b) a b refl (omega arith) h
        (rw zero-add (drop_past a b c)) wa wb in
    rw (split_string-split_from c a b, n, s, append-nil a) refl

-- A text of three parts, none of which contains the separator, no longer than size_t counts, is split into
-- the first part; the second part with a separator and as many bytes of the third part as the first
-- part has, or all of them where the third part is shorter; and the third part. An empty first or third
-- part is left out.
pub split_string-overrun :
    (c : ℕ) (a b d : List ℕ)
    → length (a ++ c ∷ (b ++ c ∷ d)) ≤ npos
    → Whole c a
    → Whole c b
    → Whole c d
    → split_string c (a ++ c ∷ (b ++ c ∷ d))
      ≡ value (push a (push (b ++ c ∷ take (length a) d) (push d [])))
split_string-overrun c a b d h wa wb wd =
    let text : List ℕ = a ++ c ∷ (b ++ c ∷ d) in
    let e : length text ≡ length a + suc (length b + suc (length d)) =
      length-append a (c ∷ (b ++ c ∷ d))
      ∙ ap (λ (k : ℕ). length a + suc k) (length-append b (c ∷ d)) in
    let n : length text + 1 ≡ suc (suc (suc (length a + length b + length d))) = omega arith in
    let k : length a + 1 ≡ suc (length a) = omega arith in
    let j : length a + 1 + length b + 1 ≡ (length a + 1) + (length b + 1) = omega arith in
    let past : drop (length a + 1 + length b + 1) text ≡ d =
      rw (j, drop-add (length a + 1) (length b + 1) text, drop_past a (b ++ c ∷ d) c)
        (drop_past b d c) in
    let s : split_from c (suc (suc (length a + length b + length d))) (length a + 1) text
        ≡ value (push (b ++ take (length a + 1) (c ∷ d)) (push d [])) =
      split_from-pair c (length a + length b + length d) (length a + 1) text b d
        (drop_past a (b ++ c ∷ d) c) (omega arith) h past wb wd in
    rw
      (
        split_string-split_from c a (b ++ c ∷ d),
        n,
        split_from-more c (suc (suc (length a + length b + length d))) 0 text a (b ++ c ∷ d) refl
            (omega arith) wa,
        zero-add,
        s,
        take-append a (c ∷ (b ++ c ∷ d)),
        k,
      )
      refl
