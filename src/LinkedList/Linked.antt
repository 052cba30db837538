-- ===== src/LinkedList/Linked.antt =====
-- list.h: the nodes of a list stand one behind the other between the sentinels, in both directions.
use xteam.Prelude.{
  ℕ, suc, ◌+◌, ◌-◌, ◌≤◌, ◌<◌, ◌≡◌, refl, false, some, arith, ltb, leb, ◌==◌, if◌then◌else◌,
}
use xteam.LinkedList.Types.{
  LinkedList, write, insert_as_succ, insert_as_pred, unlink, remove, node_insert_as_succ,
  node_insert_as_pred,
}

-- A list of so many nodes: `pos 0` is the address of the header, `pos i` that of the i-th node, and
-- `pos (n + 1)` that of the trailer.
pub record IsList {T : Type 0} (s : LinkedList T) (n : ℕ) (pos : ℕ → ℕ) : Type 0 where
  pub size_is : s.size ≡ n
  pub header_at : pos 0 ≡ s.header
  pub trailer_at : pos (suc n) ≡ s.trailer
  pub succ_at : (i : ℕ) → i ≤ n → s.succ (pos i) ≡ pos (suc i)
  pub pred_at : (i : ℕ) → i ≤ n → s.pred (pos (suc i)) ≡ pos i
  pub apart : (i j : ℕ) → i ≤ suc n → j ≤ suc n → pos i ≡ pos j → i ≡ j
  pub old : (i : ℕ) → i ≤ suc n → pos i < s.fresh
  pub some_node : (i : ℕ) → i ≤ suc n → 0 < pos i

-- The positions with one more behind the k-th, and without the k-th.
abbrev pub open_at : ℕ → ℕ → (ℕ → ℕ) → ℕ → ℕ
open_at k p pos i = if leb i k then pos i else if i == suc k then p else pos (i - 1)

abbrev pub close_at : ℕ → (ℕ → ℕ) → ℕ → ℕ
close_at k pos i = if ltb i k then pos i else pos (suc i)

module _ {T : Type 0} where
  -- Between two nodes.
  module _ (s : LinkedList T) (n : ℕ) (pos : ℕ → ℕ) (k : ℕ) (e : T) (h : IsList s n pos)
      (inside : k ≤ n) where
    insert_succ_at :
        (i : ℕ)
        → i ≤ suc n
        → (insert_as_succ s (pos k) e).succ (open_at k s.fresh pos i)
          ≡ open_at k s.fresh pos (suc i)
    unfolding insert_as_succ node_insert_as_succ
    insert_succ_at i le = ground (
      arith,
      h.succ_at i,
      h.succ_at k,
      h.succ_at (i - 1),
      h.old i,
      h.old k,
      h.old (i - 1),
      h.apart i k,
      h.apart (i - 1) k,
    )

    insert_pred_at :
        (i : ℕ)
        → i ≤ suc n
        → (insert_as_succ s (pos k) e).pred (open_at k s.fresh pos (suc i))
          ≡ open_at k s.fresh pos i
    unfolding insert_as_succ node_insert_as_succ
    insert_pred_at i le = ground (
      arith,
      h.succ_at k,
      h.pred_at i,
      h.pred_at (i - 1),
      h.old (suc i),
      h.old i,
      h.some_node (suc k),
      h.apart (suc i) (suc k),
      h.apart i (suc k),
    )

    insert-apart :
        (i j : ℕ)
        → i ≤ suc (suc n)
        → j ≤ suc (suc n)
        → open_at k s.fresh pos i ≡ open_at k s.fresh pos j
        → i ≡ j
    insert-apart i j li lj eq = ground (
      arith,
      h.apart i j,
      h.apart i (j - 1),
      h.apart (i - 1) j,
      h.apart (i - 1) (j - 1),
      h.old i,
      h.old j,
      h.old (i - 1),
      h.old (j - 1),
    )

    -- `insertAsSucc` of the k-th node puts a node with the value behind it, where 0 is the header, and
    -- the list is one node longer.
    pub insert_as_succ-IsList : IsList (insert_as_succ s (pos k) e) (suc n) (open_at k s.fresh pos)
    unfolding insert_as_succ node_insert_as_succ
    insert_as_succ-IsList = record {
      size_is = ground (arith, h.size_is);
      header_at = ground (arith, h.header_at);
      trailer_at = ground (arith, h.trailer_at);
      succ_at = insert_succ_at;
      pred_at = insert_pred_at;
      apart = insert-apart;
      old = λ i le. ground (arith, h.old i, h.old (i - 1));
      some_node = λ i le. ground (arith, h.some_node i, h.some_node (i - 1), h.old 0);
    }

    pub insert_val_at :
        (i : ℕ)
        → i ≤ suc (suc n)
        → (insert_as_succ s (pos k) e).val (open_at k s.fresh pos i)
          ≡ (if i == suc k then e else if leb i k then s.val (pos i) else s.val (pos (i - 1)))
    unfolding insert_as_succ node_insert_as_succ
    insert_val_at i le = ground (arith, h.old i, h.old (i - 1))

    -- `insertAsPred` of the next node does the same.
    pub insert_as_pred_lem : insert_as_pred s (pos (suc k)) e ≡ insert_as_succ s (pos k) e
    unfolding insert_as_succ node_insert_as_succ insert_as_pred node_insert_as_pred
    insert_as_pred_lem =
        let a : (q : ℕ)
            → (insert_as_pred s (pos (suc k)) e).succ q ≡ (insert_as_succ s (pos k) e).succ q =
          λ q. ground (arith, h.succ_at k, h.pred_at k, h.old k, h.some_node k) in
        let b : (q : ℕ)
            → (insert_as_pred s (pos (suc k)) e).pred q ≡ (insert_as_succ s (pos k) e).pred q =
          λ q. ground (arith, h.succ_at k, h.pred_at k, h.old (suc k), h.some_node (suc k)) in
        λ i. record s {
          val = write s.val s.fresh e;
          succ = λ q. a q i;
          pred = λ q. b q i;
          fresh = s.fresh + 1;
          size = s.size + 1;
        }

  module _ (s : LinkedList T) (n : ℕ) (pos : ℕ → ℕ) (k : ℕ) (h : IsList s (suc n) pos) (low : 0 < k)
      (high : k ≤ suc n) where
    unlink_succ_at :
        (i : ℕ) → i ≤ n → (unlink s (pos k)).succ (close_at k pos i) ≡ close_at k pos (suc i)
    unfolding unlink
    unlink_succ_at i le = ground (
      arith,
      h.succ_at i,
      h.succ_at k,
      h.succ_at (suc i),
      h.pred_at (k - 1),
      h.apart i (k - 1),
      h.apart (suc i) (k - 1),
    )

    unlink_pred_at :
        (i : ℕ) → i ≤ n → (unlink s (pos k)).pred (close_at k pos (suc i)) ≡ close_at k pos i
    unfolding unlink
    unlink_pred_at i le = ground (
      arith,
      h.succ_at k,
      h.pred_at i,
      h.pred_at (suc i),
      h.pred_at (k - 1),
      h.apart (suc i) (suc k),
      h.apart (suc (suc i)) (suc k),
    )

    pub unlink-IsList : IsList (unlink s (pos k)) n (close_at k pos)
    unfolding unlink
    unlink-IsList = record {
      size_is = ground (arith, h.size_is);
      header_at = ground (arith, h.header_at);
      trailer_at = ground (arith, h.trailer_at);
      succ_at = unlink_succ_at;
      pred_at = unlink_pred_at;
      apart = λ i j li lj eq.
          ground
            (arith, h.apart i j, h.apart (suc i) j, h.apart i (suc j), h.apart (suc i) (suc j));
      old = λ i le. ground (arith, h.old i, h.old (suc i));
      some_node = λ i le. ground (arith, h.some_node i, h.some_node (suc i));
    }

    pub remove_unlinks : remove s (pos k) ≡ some (s.val (pos k), unlink s (pos k))
    unfolding remove
    remove_unlinks =
        let e : (pos k == s.header) ≡ false = ground (arith, h.header_at, h.apart k 0) in
        let e' : (pos k == s.trailer) ≡ false =
          ground (arith, h.trailer_at, h.apart k (suc (suc n))) in
        rw e (rw e' refl)
