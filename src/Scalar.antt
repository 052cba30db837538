-- ===== src/Scalar.antt =====
-- The arithmetic of `double` that the k-d trees of 数据结构/kd-tree use, as an interface.
-- `<` is the primitive comparison, and the other three are read through it. The laws are those of
-- comparison and of monotone rounding: they hold of exact arithmetic, and of IEEE arithmetic on
-- values among which there is no NaN.
pub mod Integers
use xteam.Prelude.{Bool, true, false, not, ◌≡◌}

pub record IsMonotone {R : Type 0} (lt : R → R → Bool) (origin : R) (add sub mul : R → R → R)
    (abs : R → R) : Type 0 where
  pub lt_irrefl : (a : R) → lt a a ≡ false
  pub lt_trans : (a b c : R) → lt a b ≡ true → lt b c ≡ true → lt a c ≡ true
  pub le_trans : (a b c : R) → lt b a ≡ false → lt c b ≡ false → lt c a ≡ false
  pub le-add_right : (a b : R) → lt b origin ≡ false → lt (add a b) a ≡ false
  pub le-add_left : (a b : R) → lt a origin ≡ false → lt (add a b) b ≡ false
  pub sub_mono : (a b c : R) → lt b a ≡ false → lt (sub b c) (sub a c) ≡ false
  pub sub_anti : (a b c : R) → lt b a ≡ false → lt (sub c a) (sub c b) ≡ false
  pub sub_swap : (a b : R) → lt origin (sub a b) ≡ false → lt (sub b a) origin ≡ false
  pub abs_swap : (a b : R) → abs (sub a b) ≡ abs (sub b a)
  pub abs_of_nonneg : (a : R) → lt a origin ≡ false → abs a ≡ a
  pub mul_self_swap : (a b : R) → mul (sub a b) (sub a b) ≡ mul (sub b a) (sub b a)
  pub mul_self_nonneg : (a : R) → lt (mul a a) origin ≡ false
  pub mul_self_mono :
      (a b : R) → lt a origin ≡ false → lt b a ≡ false → lt (mul b b) (mul a a) ≡ false

pub record Scalar (R : Type 0) : Type 0 where
  pub lt : R → R → Bool
  pub origin : R
  pub minus_one : R
  pub add : R → R → R
  pub sub : R → R → R
  pub mul : R → R → R
  pub abs : R → R
  pub monotone : IsMonotone lt origin add sub mul abs
  pub open monotone use *
  pub negative : lt minus_one origin ≡ true

-- `a <= b`, for values that are no NaN.
abbrev pub le : {R : Type 0} ⦃s : Scalar R⦄ → R → R → Bool
le ⦃s⦄ a b = not (s.lt b a)
