-- ===== src/Base64/Bits.antt =====
-- What the masks, shifts and tables of src/cbase64.cpp come to in arithmetic. Each fact is checked at
-- every value of its range.
use Prim.Native.Nat.{bit_and, bit_or}
use andor2k.Base.{
  ℕ, ◌+◌, ◌*◌, ◌/◌, ◌%◌, ◌<◌, ◌≡◌, refl, Bool, true, ◌==◌, ==_iff, tabulated, tabulated_entry,
}
use andor2k.Base64.{basis_64, pr2six}

-- A test of two numbers, each under a bound.
grid : (ℕ → ℕ → Bool) → ℕ → ℕ → Bool
unfolding tabulated
grid test n m = tabulated (λ a. tabulated (test a) m) n

grid_entry :
    (test : ℕ → ℕ → Bool) (n m a b : ℕ) → a < n → b < m → grid test n m ≡ true → test a b ≡ true
unfolding grid
grid_entry test n m a b ha hb t =
    tabulated_entry (test a) b m hb (tabulated_entry (λ a. tabulated (test a) m) a n ha t)

alphabet_table : tabulated (λ i. pr2six (basis_64 i) == i) 64 ≡ true
unfolding tabulated pr2six basis_64
alphabet_table = refl

-- `pr2six` inverts `basis_64`.
pub pr2six-basis_64 : (i : ℕ) → i < 64 → pr2six (basis_64 i) ≡ i
pr2six-basis_64 i h = (==_iff _ i).0 (tabulated_entry _ i 64 h alphabet_table)

and_63_table : tabulated (λ x. bit_and x 0x3f == x % 64) 256 ≡ true
unfolding tabulated
and_63_table = refl

pub and_63 : (x : ℕ) → x < 256 → bit_and x 0x3f ≡ x % 64
and_63 x h = (==_iff _ _).0 (tabulated_entry _ x 256 h and_63_table)

and_3_table : tabulated (λ x. bit_and x 0x3 == x % 4) 256 ≡ true
unfolding tabulated
and_3_table = refl

pub and_3 : (x : ℕ) → x < 256 → bit_and x 0x3 ≡ x % 4
and_3 x h = (==_iff _ _).0 (tabulated_entry _ x 256 h and_3_table)

and_15_table : tabulated (λ x. bit_and x 0xf == x % 16) 256 ≡ true
unfolding tabulated
and_15_table = refl

pub and_15 : (x : ℕ) → x < 256 → bit_and x 0xf ≡ x % 16
and_15 x h = (==_iff _ _).0 (tabulated_entry _ x 256 h and_15_table)

high_4_table : tabulated (λ x. bit_and x 0xf0 / 16 == x / 16) 256 ≡ true
unfolding tabulated
high_4_table = refl

pub high_4 : (x : ℕ) → x < 256 → bit_and x 0xf0 / 16 ≡ x / 16
high_4 x h = (==_iff _ _).0 (tabulated_entry _ x 256 h high_4_table)

high_2_table : tabulated (λ x. bit_and x 0xc0 / 64 == x / 64) 256 ≡ true
unfolding tabulated
high_2_table = refl

pub high_2 : (x : ℕ) → x < 256 → bit_and x 0xc0 / 64 ≡ x / 64
high_2 x h = (==_iff _ _).0 (tabulated_entry _ x 256 h high_2_table)

or_4_table : grid (λ a b. bit_or (a * 4) b == a * 4 + b) 64 4 ≡ true
unfolding grid
or_4_table = refl

pub or_4 : (a b : ℕ) → a < 64 → b < 4 → bit_or (a * 4) b ≡ a * 4 + b
or_4 a b ha hb = (==_iff _ _).0 (grid_entry _ 64 4 a b ha hb or_4_table)

or_16_table : grid (λ a b. bit_or (a * 16) b == a * 16 + b) 64 16 ≡ true
unfolding grid
or_16_table = refl

pub or_16 : (a b : ℕ) → a < 64 → b < 16 → bit_or (a * 16) b ≡ a * 16 + b
or_16 a b ha hb = (==_iff _ _).0 (grid_entry _ 64 16 a b ha hb or_16_table)

or_64_table : grid (λ a b. bit_or (a * 64) b == a * 64 + b) 64 64 ≡ true
unfolding grid
or_64_table = refl

pub or_64 : (a b : ℕ) → a < 64 → b < 64 → bit_or (a * 64) b ≡ a * 64 + b
or_64 a b ha hb = (==_iff _ _).0 (grid_entry _ 64 64 a b ha hb or_64_table)
