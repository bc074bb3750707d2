-- ===== src/Aristarchos/Chunks.antt =====
-- add_char_every of src/aristarchos.cpp against what its comment says.
use native.Mathlib.Nat.{div-eq_of_lt, div-eq-sub-div, mod-eq_of_lt, mod-eq-sub-mod}
use andor2k.Base.{
  ℕ, zero, suc, ◌+◌, ◌-◌, ◌≤◌, ◌<◌, ◌≡◌, ◌∙◌, refl, sym, ap, [], ◌∷◌, ◌++◌, arith, ◌==◌, ltb,
  Bool-cases, inl, inr, if◌then◌else◌, length, take, drop,
}
use andor2k.Base.Text.{Bytes}
use andor2k.Aristarchos.{add_char_every, parts, part_count}

-- The characters one after the other, with the delimiter after each `every` of them, and one at the end
-- unless a delimiter is there already. `since` counts the characters since the last delimiter.
pub marked : ℕ → ℕ → ℕ → Bytes → Bytes
marked every delim since [] = if since == 0 then [] else delim ∷ []
marked every delim since (c ∷ s) =
    let again = marked every delim 0 s in
    let next = marked every delim (since + 1) s in
    if since + 1 == every then c ∷ delim ∷ again else c ∷ next

marked_part :
    (every delim since m : ℕ) (s : Bytes)
    → since + m ≡ every
    → 1 ≤ m
    → 1 ≤ since + length s
    → marked every delim since s ≡ take m s ++ (delim ∷ marked every delim 0 (drop m s))
unfolding marked
marked_part every delim since zero s e lt some_chars = absurd (omega (arith, lt))
marked_part every delim since (suc m) [] e lt some_chars = ground (arith, some_chars)
marked_part every delim since (suc zero) (c ∷ s) e lt some_chars = ground (arith, e)
marked_part every delim since (suc (suc m)) (c ∷ s) e lt some_chars =
    ground (arith, e, marked_part every delim (since + 1) (suc m) s)

part_count_none : (every : ℕ) → 0 < every → part_count 0 every ≡ 0
unfolding part_count
part_count_none every h = rw (div-eq_of_lt h, mod-eq_of_lt h) refl

part_count_small : (n every : ℕ) → 0 < n → n < every → part_count n every ≡ 1
unfolding part_count
part_count_small n every h lt = rw (div-eq_of_lt lt, mod-eq_of_lt lt) (ground (arith, h))

part_count_more :
    (n every : ℕ) → 0 < every → every ≤ n → part_count n every ≡ suc (part_count (n - every) every)
unfolding part_count
part_count_more n every h le = rw (div-eq-sub-div h le, mod-eq-sub-mod le) (omega arith)

length-drop : (n : ℕ) (s : Bytes) → length (drop n s) ≡ length s - n
length-drop zero s = omega arith
length-drop (suc n) [] = omega arith
length-drop (suc n) (c ∷ s) = omega (arith, length-drop n s)

part_count_step :
    (n every : ℕ) → 0 < n → 0 < every → part_count n every ≡ suc (part_count (n - every) every)
part_count_step n every h lt = elim (Bool-cases (ltb n every)) [
  | inl t ↦
      let e : n - every ≡ 0 = ground (arith, t) in
      rw (e, part_count_none every lt) (part_count_small n every h (ground (arith, t)))
  | inr f ↦ part_count_more n every lt (ground (arith, f))
]

-- So many parts as the length asks for mark all of it.
parts-marked :
    (n every delim : ℕ) (s : Bytes)
    → 0 < every
    → part_count (length s) every ≡ n
    → parts n every delim s ≡ marked every delim 0 s
unfolding parts
parts-marked zero every delim [] lt e = unfold marked in refl
parts-marked zero every delim (c ∷ s) lt e =
    absurd (omega (arith, e, part_count_step (length (c ∷ s)) every (omega arith) lt))
parts-marked (suc n) every delim [] lt e = absurd (omega (arith, e, part_count_none every lt))
parts-marked (suc n) every delim (c ∷ s) lt e =
    let step = part_count_step (length (c ∷ s)) every (omega arith) lt in
    let left : part_count (length (drop every (c ∷ s))) every ≡ n =
      rw (length-drop every (c ∷ s)) (omega (arith, e, step)) in
    ap (λ r. take every (c ∷ s) ++ (delim ∷ r))
      (parts-marked n every delim (drop every (c ∷ s)) lt left)
    ∙ sym (marked_part every delim 0 every (c ∷ s) (omega arith) lt (omega arith))

-- The copy is what the characters give one after the other, with the delimiter after each `every` of
-- them and at the end, but not twice at the end; `every` is not 0.
pub add_char_every-marked :
    (source : Bytes) (every delim : ℕ)
    → 0 < every
    → add_char_every source every delim ≡ marked every delim 0 source
unfolding add_char_every
add_char_every-marked source every delim lt =
    parts-marked (part_count (length source) every) every delim source lt refl
