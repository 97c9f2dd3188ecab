-- ===== src/BinaryTree/Sizes.antt =====
-- `check` and the constructors with a first node of include/RBTree/rbtree.hpp.
use cs.Prelude.{
  ℕ, zero, suc, ◌+◌, ◌*◌, ◌/◌, ◌%◌, ◌<◌, ◌≤◌, Bool, true, false, ◌≡◌, ap, sym, ◌∙◌, List, [], ◌∷◌,
  none, ◌==◌, arith,
}
use native.Mathlib.Nat.{
  div-add-mod, mod-lt, mul-add, mul_assoc, mul-le-mul_left, mul-add-mod_self_left, mod-eq_of_lt,
}
use cs.Order.{Ord}
use cs.Layout.{Layout, tomb}
use cs.Tree.{Tree, new_node}
use cs.Tree.Insert.{count, count-put, count-mark}
use cs.BinaryTree.{BinaryTree, insert, delete}
use cs.BinaryTree.Methods.{insert-root, insert-size, delete-root, delete-size}
use cs.BinaryTree.Log.Recovery.{Op, run}
use cs.FileIo.{blk_size}

-- `check`, which exits where this is not so: whether a block holds a whole number of entries. The quotient
-- is a `float` in the code; one that is not whole is further from a whole number than a `float` rounds.
unfoldable pub check : ℕ → ℕ → Bool
check sz_k sz_v = (blk_size % (sz_k + sz_v)) == 0

positive : (n c : ℕ) → 0 < n * c → 0 < c
positive n zero h = absurd (omega arith)
positive n (suc c) h = omega arith

-- `b` bytes that are `c` entries of `n` bytes.
whole_entries : (b n c i : ℕ) → n * c ≡ b → 0 < n → 0 < b → (n * i) % b + n ≤ b
whole_entries b n c i whole pos some_byte =
    let q = i / c in
    let r = i % c in
    let some_entry : 0 < c = positive n c (omega (arith, whole)) in
    let below : n * (r + 1) ≤ n * c = mul-le-mul_left n (omega (arith, mod-lt i some_entry)) in
    let end : n * (r + 1) ≡ n * r + n * 1 = mul-add n r 1 in
    let fits : n * r + n ≤ b = omega (arith, below, end, whole) in
    let split : n * i ≡ b * q + n * r =
      ap (λ x. n * x) (sym (div-add-mod i c))
      ∙ mul-add n (c * q) r
      ∙ ap (λ x. x + n * r) (sym (mul_assoc n c q) ∙ ap (λ x. x * q) whole) in
    let at : (n * i) % b ≡ n * r =
      ap (λ x. x % b) split
      ∙ mul-add-mod_self_left b q (n * r)
      ∙ mod-eq_of_lt (omega (arith, fits)) in
    omega (arith, at, fits)

-- Where `check` passes, no entry of a file lies across the end of a block: what `FileIO::fread` asks for.
pub check-fits :
    (sz_k sz_v i : ℕ)
    → 0 < sz_k + sz_v
    → check sz_k sz_v ≡ true
    → ((sz_k + sz_v) * i) % blk_size + (sz_k + sz_v) ≤ blk_size
unfolding check
check-fits sz_k sz_v i pos ok =
    let n = sz_k + sz_v in
    let whole : n * (blk_size / n) ≡ blk_size =
      let split : n * (blk_size / n) + blk_size % n ≡ blk_size = div-add-mod blk_size n in
      let no_rest : blk_size % n ≡ 0 = ground arith in omega (arith, split, no_rest) in
    whole_entries blk_size n (blk_size / n) i whole pos (omega arith)

module _ {ℓ κ} {K : Type ℓ} {V : Type κ} where
  -- `BinaryTree(n)`, with what hangs below the node; `size` keeps its initial 0.
  abbrev pub of_node : Tree K V → BinaryTree K V
  of_node n = record { size = 0; traversal_started = false; logfile = none; stk = []; root = n }

  -- `BinaryTree(k, v)`
  abbrev pub of_entry : K → V → BinaryTree K V
  of_entry k v = of_node (new_node k v)

module _ {ℓ κ} {K : Type ℓ} {V : Type κ} ⦃o : Ord K⦄ ⦃w : Layout V⦄ (unset : V) where
  run-short :
      (ops : List (Op K V)) (t : BinaryTree K V) (d : ℕ)
      → t.size + d ≡ count t.root
      → (run unset ops t).size + d ≡ count (run unset ops t).root
  unfolding run
  run-short [] t d h = h
  run-short (Op.put k v ∷ ops) t d h =
      run-short ops (insert t k v) d
        (rw (insert-root t k v) (omega (arith, insert-size t k v, count-put k v t.root, h)))
  run-short (Op.remove k ∷ ops) t d h = run-short ops (delete unset t k).0 d (
      rw (delete-root unset t k)
        (omega (arith, delete-size unset t k, count-mark k (tomb {V = V}) t.root, h)))

  -- The size of a tree that was made from a first node is short of its nodes by those it began with, after
  -- any calls of `insert` and `del`.
  pub of_node-short :
      (n : Tree K V) (ops : List (Op K V))
      → (run unset ops (of_node n)).size + count n ≡ count (run unset ops (of_node n)).root
  of_node-short n ops = run-short ops (of_node n) (count n) (omega arith)
