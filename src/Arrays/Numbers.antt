-- ===== src/Arrays/Numbers.antt =====
-- Numbers as elements.
use xteam.Prelude.{ℕ, arith, ltb}
use xteam.Arrays.Order.{Order}

instance abbrev pub numbers : Order ℕ
numbers = record {
  lt = ltb;
  blank = 0;
  lt_irrefl = λ a. ground arith;
  lt_trans = λ a b c h k. ground arith;
  le_trans = λ a b c h k. ground arith;
}
