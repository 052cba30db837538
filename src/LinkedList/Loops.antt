-- ===== src/LinkedList/Loops.antt =====
-- list.h: `IsLoop` on a list as it should be.
use xteam.Prelude.{
  ℕ, zero, suc, ◌-◌, ◌≤◌, ◌<◌, ◌≡◌, refl, inl, inr, false, some, arith, ◌==◌, if◌then◌else◌,
  Bool-cases,
}
use xteam.LinkedList.Types.{LinkedList}
use xteam.LinkedList.Runners.{loop_from, is_loop}
use xteam.LinkedList.Linked.{IsList}
use xteam.LinkedList.Counted.{at_trailer, at_first, step_fast_lem}

module _ {T : Type 0} (s : LinkedList T) (n : ℕ) (pos : ℕ → ℕ) (h : IsList s n pos) where
  loop_from-open :
      (fuel a b : ℕ)
      → a < b
      → b ≤ suc n
      → suc n - b < fuel
      → loop_from fuel s (pos a) (pos b) ≡ some false
  unfolding loop_from
  loop_from-open zero a b before le less = absurd (omega arith)
  loop_from-open (suc fuel) a b before le less = elim (Bool-cases (b == suc n)) [
    | inl e ↦ rw (at_trailer s n pos h b le) (rw e refl)
    | inr e ↦
        let t : (pos a == pos b) ≡ false = ground (arith, h.apart a b) in
        rw (at_trailer s n pos h b le) (
          rw e (
            rw t (
              rw (h.succ_at a (ground arith)) (
                rw (step_fast_lem s n pos h b (ground arith)) (
                  loop_from-open fuel (suc a) (if b == n then suc n else suc (suc b)) (ground arith)
                    (ground arith) (ground arith))))))
  ]

  second :
      0 < n
      → (if pos 2 == s.trailer then s.trailer else s.succ (pos 2)) ≡ pos (if n == 1 then 2 else 3)
  second some_node = elim (Bool-cases (n == 1)) [
    | inl e ↦ rw (at_trailer s n pos h 2 (omega arith)) (rw e (ground (arith, h.trailer_at)))
    | inr e ↦
        rw (at_trailer s n pos h 2 (omega arith))
          (rw e (rw (h.succ_at 2 (ground arith)) (ground arith)))
  ]

  -- `IsLoop` of a list as it should be is false; as many rounds as there are nodes, and one more, are enough.
  pub is_loop_lem : (fuel : ℕ) → n < fuel → is_loop fuel s ≡ some false
  unfolding is_loop
  is_loop_lem fuel less = rw (at_first s n pos h) (
      rw (at_trailer s n pos h 1 (omega arith)) (elim (Bool-cases (1 == suc n)) [
        | inl e ↦ rw e refl
        | inr e ↦
            let t : (pos 2 == pos 1) ≡ false = ground (arith, h.apart 2 1) in
            rw e (
              rw (h.succ_at 1 (ground arith)) (
                rw t (
                  rw (second (ground arith)) (
                    loop_from-open fuel 1 (if n == 1 then 2 else 3) (ground arith) (ground arith)
                      (ground arith)))))
      ]))
