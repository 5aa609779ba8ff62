-- ===== src/Tree/Balance.antt =====
-- `BplusTree::Insert` keeps the tree balanced: a split node has two halves that are not empty, and
-- only a split of the root makes the tree higher, by one.
use gast_co_co.Prelude.{
  ℕ, suc, ◌+◌, ◌-◌, ◌/◌, ◌≤◌, ◌<◌, ◌≡◌, refl, arith, Option, none, some, Bool-cases, inl, inr, ltb,
  ltb→lt, ltb→ge, ◌⊎◌,
}
use gast_co_co.Types.{AdjUnit}
use gast_co_co.Tree
use gast_co_co.Tree.{
  Node, leaf, inter, Branches, nil, branch, Trail, root, first, later, append, plug, branch_count,
  insert_branch, split_at, Halves, halves, split_node, insert_into_half, Grown, Step, done, up,
  add_at, resume, add_node, find, find_key, Heap, insert_at, BplusTree, split_leaf, alloc,
}
use gast_co_co.Tree.Shape.{
  IsNode, leaf_node, inter_node, AreBranches, no_branch, one_more, IsPath, at_root, at_first,
  at_later, branch_count-insert_branch, count-middle, split_at-counts, middle-AreBranches,
  plug-IsNode, insert_branch-AreBranches, split_at-AreBranches, append-AreBranches,
  branch_count-append,
}

-- The two halves of branches of a height, with their sizes.
record AreHalves (key_cnt d low high : ℕ) (h : Halves) : Type 0 where
  this_are : AreBranches key_cnt d h.this
  brother_is : IsNode key_cnt d h.brother
  rest_are : AreBranches key_cnt d h.brother_branches
  this_size : branch_count h.this ≡ low
  rest_size : branch_count h.brother_branches ≡ high

-- What one round of `Add_Node` leaves at the height `d`.
abbrev StepIs : ℕ → ℕ → Step → Type 0
StepIs key_cnt d (done n) = IsNode key_cnt d n
StepIs key_cnt d (up g) = IsNode key_cnt d g.left × IsNode key_cnt d g.right

-- A node that is as high as before, or higher by one.
abbrev HasGrown : ℕ → ℕ → Node → Type 0
HasGrown key_cnt top n = IsNode key_cnt top n ⊎ IsNode key_cnt (suc top) n

-- The height of a tree's root; that of the empty tree is 0.
abbrev pub HasHeight : ℕ → ℕ → Option Node → Type 0
HasHeight key_cnt top none = top ≡ 0
HasHeight key_cnt top (some n) = IsNode key_cnt top n

module _ {key_cnt : ℕ} where
  halves-AreHalves :
      {d : ℕ} (l r : Branches)
      → AreBranches key_cnt d l
      → AreBranches key_cnt d r
      → 0 < branch_count r
      → (h : Halves) × (halves l r ≡ some h)
        × AreHalves key_cnt d (branch_count l) (branch_count r - 1) h
  unfolding halves branch_count
  halves-AreHalves l nil hl hr lt = absurd (omega arith)
  halves-AreHalves l (branch k c rest) hl (one_more hc hrest) lt = (
    record { this = l; mid = k; brother = c; brother_branches = rest },
    refl,
    record {
      this_are = hl;
      brother_is = hc;
      rest_are = hrest;
      this_size = refl;
      rest_size = omega arith;
    },
  )

  split_node-AreHalves :
      {d : ℕ} (bs : Branches)
      → AreBranches key_cnt d bs
      → branch_count bs ≡ key_cnt
      → 3 ≤ key_cnt
      → (h : Halves) × (split_node bs ≡ some h)
        × AreHalves key_cnt d (key_cnt / 2) (key_cnt - key_cnt / 2 - 1) h
  unfolding split_node
  split_node-AreHalves {d} bs hbs full three =
      let m = branch_count bs / 2 in
      let counts = split_at-counts m bs (omega arith) in
      let both = split_at-AreBranches m bs hbs in
      let (h, e, are) =
        halves-AreHalves (split_at m bs).0 (split_at m bs).1 both.0 both.1
          (omega (arith, counts.1)) in
      (
        h,
        e,
        record {
          this_are = are.this_are;
          brother_is = are.brother_is;
          rest_are = are.rest_are;
          this_size = omega (arith, are.this_size, counts.0);
          rest_size = omega (arith, are.rest_size, counts.1);
        },
      )

  insert_into_half-IsNode :
      {d : ℕ} (key : ℕ) (c new : Node) (h : Halves) {low high : ℕ}
      → IsNode key_cnt d c
      → IsNode key_cnt d new
      → AreHalves key_cnt d low high h
      → 1 ≤ low
      → low < key_cnt
      → 1 ≤ high
      → high < key_cnt
      → let g = insert_into_half key new h in
        IsNode key_cnt (suc d) (inter c g.this)
        × IsNode key_cnt (suc d) (inter g.brother g.brother_branches)
  unfolding insert_into_half
  insert_into_half-IsNode key c new h hc hn are l0 l1 h0 h1 = elim (Bool-cases (ltb h.mid key)) [
    | inl lt ↦
        let n = branch_count-insert_branch key new h.brother_branches in
        rw lt (
          inter_node hc are.this_are (omega (arith, are.this_size)) (omega (arith, are.this_size)),
          inter_node are.brother_is
              (insert_branch-AreBranches key h.brother_branches hn are.rest_are)
              (omega (arith, n, are.rest_size)) (omega (arith, n, are.rest_size)),
        )
    | inr ge ↦
        let n = branch_count-insert_branch key new h.this in
        rw ge (
          inter_node hc (insert_branch-AreBranches key h.this hn are.this_are)
              (omega (arith, n, are.this_size)) (omega (arith, n, are.this_size)),
          inter_node are.brother_is are.rest_are (omega (arith, are.rest_size))
              (omega (arith, are.rest_size)),
        )
  ]

  add_at-StepIs :
      {d : ℕ} (c : Node) (bs : Branches) (key : ℕ) (new : Node)
      → IsNode key_cnt d c
      → AreBranches key_cnt d bs
      → IsNode key_cnt d new
      → branch_count bs ≤ key_cnt
      → 3 ≤ key_cnt
      → StepIs key_cnt (suc d) (add_at key_cnt c bs key new)
  unfolding add_at
  add_at-StepIs c bs key new hc hbs hn hi three =
      elim (Bool-cases (ltb (branch_count bs) key_cnt)) [
        | inl lt ↦
            let n = branch_count-insert_branch key new bs in
            let below = ltb→lt (branch_count bs) key_cnt lt in
            rw lt (
              inter_node hc (insert_branch-AreBranches key bs hn hbs) (omega (arith, n))
                (omega (arith, n)))
        | inr ge ↦
            let full = ltb→ge (branch_count bs) key_cnt ge in
            let (h, e, are) = split_node-AreHalves bs hbs (omega arith) three in
            rw (ge, e)
              (insert_into_half-IsNode key c new h hc hn are (omega arith) (omega arith)
                (omega arith) (omega arith))
      ]

  resume-HasGrown :
      {top d : ℕ} {p : Trail} (s : Step)
      → IsPath key_cnt top d p
      → StepIs key_cnt d s
      → ((g : Grown)
          → IsNode key_cnt d g.left
          → IsNode key_cnt d g.right
          → HasGrown key_cnt top (add_node key_cnt p g.left g.key g.right))
      → HasGrown key_cnt top (resume (plug p) (λ g. add_node key_cnt p g.left g.key g.right) s)
  unfolding resume
  resume-HasGrown (done n) p h next = inl (plug-IsNode p h)
  resume-HasGrown (up g) p h next = next g h.0 h.1

  add_node-HasGrown :
      {top d : ℕ} {p : Trail} (left : Node) (key : ℕ) (right : Node)
      → IsPath key_cnt top d p
      → IsNode key_cnt d left
      → IsNode key_cnt d right
      → 3 ≤ key_cnt
      → HasGrown key_cnt top (add_node key_cnt p left key right)
  unfolding add_node branch_count
  add_node-HasGrown left key right at_root hl hr three =
      inr (inter_node hl (one_more hr no_branch) (omega arith) (omega arith))
  add_node-HasGrown left key right (at_first {after} bs lo hi p) hl hr three =
      resume-HasGrown (add_at key_cnt left after key right) p
        (add_at-StepIs left after key right hl bs hr hi three)
        (λ g gl gr. add_node-HasGrown g.left g.key g.right p gl gr three)
  add_node-HasGrown left key right (at_later {k} {c} {before} {after} hc hb ha hi p) hl hr three =
      let bs = append before (branch k left after) in
      resume-HasGrown (add_at key_cnt c bs key right) p
        (add_at-StepIs c bs key right hc (middle-AreBranches k hb hl ha) hr
          (omega (arith, count-middle before k left after)) three)
        (λ g gl gr. add_node-HasGrown g.left g.key g.right p gl gr three)

mutual
  unfolding find branch_count

  find-IsPath :
      (key_cnt top dest : ℕ) (n : Node) (p : Trail) {d : ℕ}
      → IsNode key_cnt d n
      → IsPath key_cnt top d p
      → IsPath key_cnt top 0 (find dest n p).1
  find-IsPath key_cnt top dest (leaf a) p leaf_node h = h
  find-IsPath key_cnt top dest (inter c bs) p (inter_node hc hbs lo hi) h =
      find_key-IsPath key_cnt top dest bs c nil p (find dest c (first bs p)) hc no_branch hbs
        (omega arith) (omega arith) h
        (find-IsPath key_cnt top dest c (first bs p) hc (at_first hbs lo hi h))

  find_key-IsPath :
      (key_cnt top dest : ℕ) (bs : Branches) (c : Node) (before : Branches) (p : Trail)
      (here : ℕ × Trail) {d : ℕ}
      → IsNode key_cnt d c
      → AreBranches key_cnt d before
      → AreBranches key_cnt d bs
      → 1 ≤ branch_count before + branch_count bs
      → branch_count before + branch_count bs ≤ key_cnt
      → IsPath key_cnt top (suc d) p
      → IsPath key_cnt top 0 here.1
      → IsPath key_cnt top 0 (find_key dest c before bs p here).1
  find_key-IsPath key_cnt top dest nil c before p here hc hb no_branch lo hi h found = found
  find_key-IsPath key_cnt top dest (branch k n bs) c before p here hc hb (one_more hn hbs) lo hi h
        found =
      elim (Bool-cases (ltb dest k)) [
        | inl lt ↦ rw lt found
        | inr ge ↦
            let size = branch_count-append before (branch k n nil) in
            rw ge (
              find_key-IsPath key_cnt top dest bs c (append before (branch k n nil)) p
                (find dest n (later c before k bs p)) hc
                (append-AreBranches hb (one_more hn no_branch)) hbs (omega (arith, size))
                (omega (arith, size)) h
                (find-IsPath key_cnt top dest n (later c before k bs p) hn
                  (at_later hc hb hbs (omega arith) h)))
      ]

insert_at-HasHeight :
    (ncnt key_cnt : ℕ) (u : AdjUnit) (h : Heap) (cnt a top : ℕ) (q : Trail)
    → 3 ≤ key_cnt
    → IsPath key_cnt top 0 q
    → let root' = (insert_at ncnt key_cnt u h cnt a q).1.root_node in
      HasHeight key_cnt top root' ⊎ HasHeight key_cnt (suc top) root'
unfolding insert_at
insert_at-HasHeight ncnt key_cnt u h cnt a top q three path =
    elim (Bool-cases (ltb (h.chunk a).count ncnt)) [
      | inl free ↦ rw free (inl (plug-IsNode path leaf_node))
      | inr full ↦ rw full (
          add_node-HasGrown (leaf a) (split_leaf ncnt u a h).1 (leaf h.fresh) path leaf_node
            leaf_node three)
    ]

-- `BplusTree::Insert` into a tree whose leaf chunks all stand at the depth `top`, and whose inner
-- nodes have between one and `key_cnt` keys, with `key_cnt` at least 3: the new tree is of the same
-- kind, at the same height or at the next.
pub insert-HasHeight :
    (ncnt key_cnt : ℕ) (u : AdjUnit) (h : Heap) (tree : BplusTree) (top : ℕ)
    → 3 ≤ key_cnt
    → HasHeight key_cnt top tree.root_node
    → let root' = (Tree.insert ncnt key_cnt u h tree).1.root_node in
      HasHeight key_cnt top root' ⊎ HasHeight key_cnt (suc top) root'
unfolding Tree.insert
insert-HasHeight ncnt key_cnt u h tree top three shape = go tree.root_node tree.leaf_cnt shape
  where
    go :
        (r : Option Node) (cnt : ℕ)
        → HasHeight key_cnt top r
        → let root' =
            (Tree.insert ncnt key_cnt u h (record { root_node = r; leaf_cnt = cnt })).1.root_node in
          HasHeight key_cnt top root' ⊎ HasHeight key_cnt (suc top) root'
    go none cnt e =
        rw e
          (insert_at-HasHeight ncnt key_cnt u (alloc ncnt h) (cnt + 1) h.fresh 0 root three at_root)
    go (some n) cnt shape =
        insert_at-HasHeight ncnt key_cnt u h cnt (find u.dest n root).0 top (find u.dest n root).1
          three (find-IsPath key_cnt top u.dest n root shape at_root)
