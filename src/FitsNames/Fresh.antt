-- ===== src/FitsNames/Fresh.antt =====
-- The next name of src/fits_filenames.cpp against the names in the folder.
use andor2k.Base.{
  drop-append, negsuc, pos_part, ◌+ℤ◌, inr, inl, Bool-cases, ℕ, ◌+◌, ◌^◌, ◌≤◌, ◌<◌, ◌≡◌, ◌≢◌, ◌∙◌,
  refl, sym, ap, true, List, [], ◌∷◌, ◌++◌, Option, none, some, arith, ltb, if◌then◌else◌, length,
  drop, ℤ, pos, leb_ℤ, to_int32, to_int32_of_small, All,
}
use andor2k.Base.Text.{Bytes, codes, starts_with, strtol, Conversion}
use andor2k.Base.Decimal.{decimal, strtol-decimal}
use andor2k.FitsNames.{count_index, count_images, image_count, numbered}

starts_with-append : (s t : Bytes) → starts_with s (s ++ t) ≡ true
unfolding starts_with
starts_with-append [] t = refl
starts_with-append (c ∷ s) t = ground (arith, starts_with-append s t)

-- The count after one name.
abbrev after : Bytes → Bytes → ℤ → ℤ
after stem existing count =
    if starts_with stem existing
    then count_index (strtol (drop (length stem) existing)) count
    else count

-- `current + 1` where the count is not above `current`.
abbrev raised : ℤ → ℤ → ℤ
raised count current = if leb_ℤ count current then current +ℤ pos 1 else count

raised_pos : (c m : ℕ) → raised (pos c) (pos m) ≡ pos (if ltb m c then c else m + 1)
raised_pos c m = ground arith

raised_negsuc : (c m : ℕ) → raised (pos c) (negsuc m) ≡ pos c
raised_negsuc c m = ground arith

raised_grows : (z : ℤ) (c : ℕ) → (d : ℕ) × (raised (pos c) z ≡ pos d) × (c ≤ d)
raised_grows (pos m) c = (if ltb m c then c else m + 1, raised_pos c m, ground arith)
raised_grows (negsuc m) c = (c, raised_negsuc c m, omega arith)

count_index_grows :
    (index : Option Conversion) (c : ℕ) → (d : ℕ) × (count_index index (pos c) ≡ pos d) × (c ≤ d)
unfolding count_index
count_index_grows none c = (c, refl, omega arith)
count_index_grows (some index) c = elim (Bool-cases (starts_with (codes ".") index.rest)) [
  | inl t ↦ rw t (raised_grows (to_int32 index.value) c)
  | inr f ↦ rw f (c, refl, omega arith)
]

after_grows :
    (stem existing : Bytes) (c : ℕ) → (d : ℕ) × (after stem existing (pos c) ≡ pos d) × (c ≤ d)
after_grows stem existing c = elim (Bool-cases (starts_with stem existing)) [
  | inl t ↦ rw t (count_index_grows (strtol (drop (length stem) existing)) c)
  | inr f ↦ rw f (c, refl, omega arith)
]

after-append :
    (stem tail : Bytes) (count : ℤ)
    → after stem (stem ++ tail) count ≡ count_index (strtol tail) count
after-append stem tail count =
    rw (starts_with-append stem tail, drop-append (length stem) stem tail refl) refl

-- An index that the program itself writes.
count_index-decimal :
    (k : ℕ) (count : ℤ)
    → k < 2 ^ 31
    → count_index (strtol (decimal k ++ codes ".fits")) count ≡ raised count (pos k)
unfolding count_index starts_with
count_index-decimal k count fits =
    rw
      (
        strtol-decimal k (codes ".fits") (omega arith) refl,
        to_int32_of_small (pos k) (omega arith) (omega arith),
      )
      refl

-- A name that the program itself writes pushes the count past its own.
after-numbered :
    (stem : Bytes) (k c : ℕ)
    → k < 2 ^ 31
    → (d : ℕ) × (after stem (numbered stem k) (pos c) ≡ pos d) × (k < d)
unfolding numbered
after-numbered stem k c fits = (
  if ltb k c then c else k + 1,
  after-append stem (decimal k ++ codes ".fits") (pos c)
      ∙ count_index-decimal k (pos c) fits
      ∙ raised_pos c k,
  ground arith,
)

grows :
    (stem : Bytes) (entries : List Bytes) (c : ℕ)
    → (n : ℕ) × (count_images stem entries (pos c) ≡ pos n) × (c ≤ n)
unfolding count_images
grows stem [] c = (c, refl, omega arith)
grows stem (e ∷ es) c =
    let (d, step, le) = after_grows stem e c in
    let (n, rest, le') = grows stem es d in (n, ap (count_images stem es) step ∙ rest, omega arith)

pos-injective : (m n : ℕ) → pos m ≡ pos n → m ≡ n
pos-injective m n e = ap pos_part e

unused :
    (stem : Bytes) (entries : List Bytes) (c n : ℕ)
    → n < 2 ^ 31
    → count_images stem entries (pos c) ≡ pos n
    → All (λ e. e ≢ numbered stem n) entries
unfolding count_images
unused stem [] c n fits final = tt
unused stem (e ∷ es) c n fits final =
    let (d, step, le) = after_grows stem e c in
    let rest : count_images stem es (pos d) ≡ pos n =
      sym (ap (count_images stem es) step) ∙ final in
    (
      λ same.
          let (d', step', lt) = after-numbered stem n c fits in
          let agree = pos-injective d d' (sym step ∙ rw same step') in
          let (n', last, le') = grows stem es d in
          absurd (omega (arith, agree, pos-injective n' n (sym last ∙ rest))),
      unused stem es d n fits rest,
    )

-- The count is at least 1, and as long as it is an `int`, the name that is made of it is that of no
-- file in the folder.
pub numbered_unused :
    (stem : Bytes) (entries : List Bytes)
    → (n : ℕ) × (image_count stem entries ≡ pos n)
      × (1 ≤ n)
      × (n < 2 ^ 31 → All (λ e. e ≢ numbered stem n) entries)
unfolding image_count
numbered_unused stem entries =
    let (n, final, le) = grows stem entries 1 in
    (n, final, le, λ fits. unused stem entries 1 n fits final)
