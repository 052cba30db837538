-- ===== src/Scalar/Integers.antt =====
-- The integers as coordinates: exact arithmetic meets the laws.
use xteam.Prelude.{ℕ, ◌*◌, ◌≤◌, ◌≡◌, true, false, arith}
use xteam.Prelude.Int.{ℤ, pos, negsuc, pos_part, neg_part, ◌-ℤ◌, ◌+ℤ◌, ◌*ℤ◌, abs, ltb_ℤ}
use xteam.Scalar.{Scalar, IsMonotone}

square_nonneg : (a : ℤ) → ltb_ℤ (a *ℤ a) (pos 0) ≡ false
unfolding ◌*ℤ◌
square_nonneg (pos n) = ground arith
square_nonneg (negsuc n) = ground arith

mul_self-le : (m n : ℕ) → m ≤ n → m * m ≤ n * n
mul_self-le m n h = grind arith

square_mono :
    (a b : ℤ) → ltb_ℤ a (pos 0) ≡ false → ltb_ℤ b a ≡ false → ltb_ℤ (b *ℤ b) (a *ℤ a) ≡ false
unfolding ◌*ℤ◌
square_mono (pos m) (pos n) h k = ground (arith, mul_self-le m n)
square_mono (pos m) (negsuc n) h k = ground arith
square_mono (negsuc m) b h k = ground arith

square_opposite : (x y : ℤ) → pos_part x ≡ neg_part y → neg_part x ≡ pos_part y → x *ℤ x ≡ y *ℤ y
unfolding ◌*ℤ◌
square_opposite x y h k = rw (h, k) (ground arith)

opposite :
    (a b : ℤ) → (pos_part (a -ℤ b) ≡ neg_part (b -ℤ a)) × (neg_part (a -ℤ b) ≡ pos_part (b -ℤ a))
unfolding ◌-ℤ◌
opposite a b = ground arith

square_swap : (a b : ℤ) → (a -ℤ b) *ℤ (a -ℤ b) ≡ (b -ℤ a) *ℤ (b -ℤ a)
square_swap a b = square_opposite (a -ℤ b) (b -ℤ a) (opposite a b).0 (opposite a b).1

pub integers-IsMonotone : IsMonotone ltb_ℤ (pos 0) ◌+ℤ◌ ◌-ℤ◌ ◌*ℤ◌ abs
unfolding ◌+ℤ◌ ◌-ℤ◌ abs
integers-IsMonotone = record {
  lt_irrefl = λ a. ground arith;
  lt_trans = λ a b c h k. ground arith;
  le_trans = λ a b c h k. ground arith;
  le-add_right = λ a b h. ground arith;
  le-add_left = λ a b h. ground arith;
  sub_mono = λ a b c h. ground arith;
  sub_anti = λ a b c h. ground arith;
  sub_swap = λ a b h. ground arith;
  abs_swap = λ a b. ground arith;
  abs_of_nonneg = λ a h. ground arith;
  mul_self_swap = square_swap;
  mul_self_nonneg = square_nonneg;
  mul_self_mono = square_mono;
}

pub negative_one : ltb_ℤ (negsuc 0) (pos 0) ≡ true
negative_one = ground arith

instance unfoldable pub integers : Scalar ℤ
unfolding ◌+ℤ◌ ◌-ℤ◌ ◌*ℤ◌ abs
integers = record {
  lt = ltb_ℤ;
  origin = pos 0;
  minus_one = negsuc 0;
  add = ◌+ℤ◌;
  sub = ◌-ℤ◌;
  mul = ◌*ℤ◌;
  abs = abs;
  monotone = integers-IsMonotone;
  negative = negative_one;
}
