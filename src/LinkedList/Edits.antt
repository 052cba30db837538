-- ===== src/LinkedList/Edits.antt =====
-- list.h: what the operations that insert and remove a node do to a list.
use xteam.Prelude.{
  ℕ, suc, ◌+◌, ◌-◌, ◌≤◌, ◌<◌, ◌≡◌, refl, sym, ap, ◌∙◌, true, none, some, arith, leb, ◌==◌,
  if◌then◌else◌,
}
use mathlib.Core.Path.{fun_ext, subst}
use xteam.LinkedList.Types.{
  LinkedList, init, insert_as_succ, insert_as_pred, insert_as_first, insert_as_last, unlink, remove,
  first, last, node_insert_as_succ,
}
use xteam.LinkedList.Linked.{
  IsList, open_at, close_at, insert_as_succ-IsList, insert_val_at, insert_as_pred_lem,
  unlink-IsList, remove_unlinks,
}

module _ {T : Type 0} where
  -- The second list has one node more behind the k-th, with the value; the others have theirs.
  abbrev pub IsInserted : LinkedList T → LinkedList T → ℕ → (ℕ → ℕ) → ℕ → T → Type 0
  IsInserted s s' n pos k e =
      IsList s' (suc n) (open_at k s.fresh pos)
      × ((i : ℕ)
          → i ≤ suc (suc n)
          → s'.val (open_at k s.fresh pos i)
            ≡ (if i == suc k then e else if leb i k then s.val (pos i) else s.val (pos (i - 1))))

  behind-IsInserted :
      (s : LinkedList T) (n : ℕ) (pos : ℕ → ℕ) (k : ℕ) (e : T)
      → IsList s n pos
      → k ≤ n
      → IsInserted s (insert_as_succ s (pos k) e) n pos k e
  behind-IsInserted s n pos k e h inside =
      (insert_as_succ-IsList s n pos k e h inside, insert_val_at s n pos k e h inside)

  before-IsInserted :
      (s : LinkedList T) (n : ℕ) (pos : ℕ → ℕ) (k : ℕ) (e : T)
      → IsList s n pos
      → k ≤ n
      → IsInserted s (insert_as_pred s (pos (suc k)) e) n pos k e
  before-IsInserted s n pos k e h inside =
      subst (λ s'. IsInserted s s' n pos k e) (sym (insert_as_pred_lem s n pos k e h inside))
        (behind-IsInserted s n pos k e h inside)

  insert_first_lem :
      (s : LinkedList T) (n : ℕ) (pos : ℕ → ℕ) (e : T)
      → IsList s n pos
      → insert_as_pred s (pos 1) e ≡ insert_as_first s e
  unfolding insert_as_first insert_as_pred
  insert_first_lem s n pos e h =
      let q : pos 1 ≡ first s = sym (h.succ_at 0 (omega arith)) ∙ ap s.succ h.header_at in
      ap (λ p. insert_as_pred s p e) q

  insert_last_lem :
      (s : LinkedList T) (n : ℕ) (pos : ℕ → ℕ) (e : T)
      → IsList s n pos
      → insert_as_succ s (pos n) e ≡ insert_as_last s e
  unfolding insert_as_last insert_as_succ
  insert_last_lem s n pos e h =
      let q : pos n ≡ last s = sym (h.pred_at n (omega arith)) ∙ ap s.pred h.trailer_at in
      ap (λ p. insert_as_succ s p e) q

  val_fresh : (s : LinkedList T) (p : ℕ) (e : T) → (insert_as_succ s p e).val s.fresh ≡ e
  unfolding insert_as_succ node_insert_as_succ
  val_fresh s p e = ground arith

  val_old :
      (s : LinkedList T) (p q : ℕ) (e : T) → q < s.fresh → (insert_as_succ s p e).val q ≡ s.val q
  unfolding insert_as_succ node_insert_as_succ
  val_old s p q e h = ground arith

  removed_there :
      (s : LinkedList T) (p q : ℕ) (e : T)
      → p ≡ q
      → s.val q ≡ e
      → remove s p ≡ some (s.val p, unlink s p)
      → remove s q ≡ some (e, unlink s q)
  removed_there s p q e here there h =
      rw (sym there) (subst (λ a. remove s a ≡ some (s.val a, unlink s a)) here h)

  remove_header : (s : LinkedList T) → remove s s.header ≡ none
  unfolding remove
  remove_header s = let e : (s.header == s.header) ≡ true = ground arith in rw e refl

  remove_trailer : (s : LinkedList T) → remove s s.trailer ≡ none
  unfolding remove
  remove_trailer s = let e : (s.trailer == s.trailer) ≡ true = ground arith in ground (arith, e)

  -- In a list of n nodes, for every k up to n, with 0 for the header: `insertAsSucc` of the k-th node and
  -- `insertAsPred` of the next one put a node with the value between them, `insertAsFirst` behind the
  -- header and `insertAsLast` before the trailer; the other nodes are in their order with their values.
  pub insert-IsInserted :
      (s : LinkedList T) (n : ℕ) (pos : ℕ → ℕ) (k : ℕ) (e : T)
      → IsList s n pos
      → k ≤ n
      → IsInserted s (insert_as_succ s (pos k) e) n pos k e
        × IsInserted s (insert_as_pred s (pos (suc k)) e) n pos k e
        × IsInserted s (insert_as_first s e) n pos 0 e
        × IsInserted s (insert_as_last s e) n pos n e
  insert-IsInserted s n pos k e h inside = (
    behind-IsInserted s n pos k e h inside,
    before-IsInserted s n pos k e h inside,
    subst (λ s'. IsInserted s s' n pos 0 e) (insert_first_lem s n pos e h)
        (before-IsInserted s n pos 0 e h (omega arith)),
    subst (λ s'. IsInserted s s' n pos n e) (insert_last_lem s n pos e h)
        (behind-IsInserted s n pos n e h (omega arith)),
  )

  -- `remove` of the k-th node of a list returns its value and leaves the other nodes, in their order, with
  -- their values; of a sentinel it fails.
  pub remove-IsList :
      (s : LinkedList T) (n : ℕ) (pos : ℕ → ℕ) (k : ℕ)
      → IsList s (suc n) pos
      → 0 < k
      → k ≤ suc n
      → ((s' : LinkedList T) × (remove s (pos k) ≡ some (s.val (pos k), s'))
          × IsList s' n (close_at k pos)
          × (s'.val ≡ s.val))
        × (remove s s.header ≡ none)
        × (remove s s.trailer ≡ none)
  unfolding unlink
  remove-IsList s n pos k h low high = (
    (
      unlink s (pos k),
      remove_unlinks s n pos k h low high,
      unlink-IsList s n pos k h low high,
      refl,
    ),
    remove_header s,
    remove_trailer s,
  )

  -- `remove` of the node that `insertAsSucc` put behind the k-th gives its value and the list that there
  -- was, with its values.
  pub remove-insert_as_succ :
      (s : LinkedList T) (n : ℕ) (pos : ℕ → ℕ) (k : ℕ) (e : T)
      → IsList s n pos
      → k ≤ n
      → (s' : LinkedList T) × (remove (insert_as_succ s (pos k) e) s.fresh ≡ some (e, s'))
        × IsList s' n pos
        × ((i : ℕ) → i ≤ suc n → s'.val (pos i) ≡ s.val (pos i))
  unfolding unlink
  remove-insert_as_succ s n pos k e h inside =
      let s1 = insert_as_succ s (pos k) e in
      let pos1 = open_at k s.fresh pos in
      let h1 = insert_as_succ-IsList s n pos k e h inside in
      let here : pos1 (suc k) ≡ s.fresh = ground arith in
      let back : close_at (suc k) pos1 ≡ pos = fun_ext (λ i. ground arith) in
      (
        unlink s1 s.fresh,
        removed_there s1 (pos1 (suc k)) s.fresh e here (val_fresh s (pos k) e)
            (remove_unlinks s1 n pos1 (suc k) h1 (omega arith) (omega arith)),
        subst (λ p. IsList (unlink s1 p) n pos) here
            (subst (IsList (unlink s1 (pos1 (suc k))) n) back
              (unlink-IsList s1 n pos1 (suc k) h1 (omega arith) (omega arith))),
        λ i le. val_old s (pos k) (pos i) e (h.old i le),
      )

  -- A new list is one of no nodes.
  pub init-IsList :
      (blank : T) (s : LinkedList T) → 0 < s.fresh → IsList (init blank s) 0 (λ i. s.fresh + i)
  unfolding init node_insert_as_succ
  init-IsList blank s some_address = record {
    size_is = refl;
    header_at = omega arith;
    trailer_at = omega arith;
    succ_at = λ i le. ground arith;
    pred_at = λ i le. ground arith;
    apart = λ i j li lj e. omega arith;
    old = λ i le. ground arith;
    some_node = λ i le. omega arith;
  }
