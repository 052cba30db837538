-- ===== src/LinkedList/Types.antt =====
-- list.h: the nodes in memory, and the operations that link them. A pointer is an address, 0 is `NULL`,
-- and each member of `ListNode` is a function of the address; what is read at `NULL` is whatever the
-- function has there. `none` is a failed assertion.
use xteam.Prelude.{
  ℕ, zero, suc, ◌+◌, ◌-◌, Bool, not, ◌&&◌, ◌||◌, Option, none, some, ltb, ◌==◌, if◌then◌else◌,
}

pub record LinkedList (T : Type 0) : Type 0 where
  -- `val_`, `pred_` and `succ_` of the node at an address
  pub val : ℕ → T
  pub pred : ℕ → ℕ
  pub succ : ℕ → ℕ
  -- what the next `new` returns
  pub fresh : ℕ
  -- `header_`, `trailer_`, `size_`
  pub header : ℕ
  pub trailer : ℕ
  pub size : ℕ

abbrev pub write {ℓ} : {A : Type ℓ} → (ℕ → A) → ℕ → A → ℕ → A
write f p v q = if q == p then v else f q

-- The same under `if (p)`.
abbrev pub write_some {ℓ} : {A : Type ℓ} → (ℕ → A) → ℕ → A → ℕ → A
write_some f p v q = if q == p && not (p == 0) then v else f q

module _ {T : Type 0} where
  -- `ListNode::insertAsPred`, which returns the address that was fresh.
  unfoldable pub node_insert_as_pred : LinkedList T → ℕ → T → LinkedList T
  node_insert_as_pred s p e =
      let q = s.pred p in
      record s {
        val = write s.val s.fresh e;
        succ = write_some (write s.succ s.fresh p) q s.fresh;
        pred = write (write s.pred s.fresh q) p s.fresh;
        fresh = s.fresh + 1;
      }

  -- `ListNode::insertAsSucc`
  unfoldable pub node_insert_as_succ : LinkedList T → ℕ → T → LinkedList T
  node_insert_as_succ s p e =
      let q = s.succ p in
      record s {
        val = write s.val s.fresh e;
        pred = write_some (write s.pred s.fresh p) q s.fresh;
        succ = write (write s.succ s.fresh q) p s.fresh;
        fresh = s.fresh + 1;
      }

  -- `swap`
  unfoldable pub swap : LinkedList T → ℕ → ℕ → LinkedList T
  swap s first last = record s { val = write (write s.val first (s.val last)) last (s.val first) }

  -- `List::init`, in memory that is otherwise unused; `blank` is `T()`.
  unfoldable pub init : T → LinkedList T → LinkedList T
  unfolding node_insert_as_succ
  init blank s =
      let h = record s {
        val = write s.val s.fresh blank;
        pred = write s.pred s.fresh 0;
        succ = write s.succ s.fresh 0;
        header = s.fresh;
        fresh = s.fresh + 1;
      } in
      let s' = node_insert_as_succ h h.header blank in record s' { trailer = h.fresh; size = 0 }

  -- `List::first`, `List::last`
  abbrev pub first : LinkedList T → ℕ
  first s = s.succ s.header

  abbrev pub last : LinkedList T → ℕ
  last s = s.pred s.trailer

  -- `List::valid`
  unfoldable pub valid : LinkedList T → ℕ → Bool
  valid s p = not (p == 0) && not (p == s.header) && not (p == s.trailer)

  -- `List::insertAsFirst`
  unfoldable pub insert_as_first : LinkedList T → T → LinkedList T
  unfolding node_insert_as_pred
  insert_as_first s e =
      let s' = node_insert_as_pred s (first s) e in record s' { size = s'.size + 1 }

  -- `List::insertAsLast`
  unfoldable pub insert_as_last : LinkedList T → T → LinkedList T
  unfolding node_insert_as_succ
  insert_as_last s e = let s' = node_insert_as_succ s (last s) e in record s' { size = s'.size + 1 }

  -- `List::insertAsPred`
  unfoldable pub insert_as_pred : LinkedList T → ℕ → T → LinkedList T
  unfolding node_insert_as_pred
  insert_as_pred s p e = let s' = node_insert_as_pred s p e in record s' { size = s'.size + 1 }

  -- `List::insertAsSucc`
  unfoldable pub insert_as_succ : LinkedList T → ℕ → T → LinkedList T
  unfolding node_insert_as_succ
  insert_as_succ s p e = let s' = node_insert_as_succ s p e in record s' { size = s'.size + 1 }

  -- What `remove` and `RemoveLastN` do with a node.
  unfoldable pub unlink : LinkedList T → ℕ → LinkedList T
  unlink s p =
      let prev = s.pred p in
      let next = s.succ p in
      record s { succ = write s.succ prev next; pred = write s.pred next prev; size = s.size - 1 }

  -- `List::remove`
  unfoldable pub remove : LinkedList T → ℕ → Option (T × LinkedList T)
  unfolding unlink
  remove s p = if p == s.header || p == s.trailer then none else some (s.val p, unlink s p)

  -- So many steps along `succ_`, and along `pred_`.
  unfoldable pub walk : LinkedList T → ℕ → ℕ → ℕ
  walk s zero p = p
  walk s (suc n) p = walk s n (s.succ p)

  -- `List::operator[]`
  unfoldable pub get_at : LinkedList T → ℕ → Option T
  unfolding walk
  get_at s r = if ltb r s.size then some (s.val (walk s r (first s))) else none
