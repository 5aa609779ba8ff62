-- ===== src/Tree.antt =====
-- `class BplusTree` and `struct InterNode` of CBList/cblist.hpp. The leaf chunks live in a heap and
-- are shared by the tree and the chain of their `nextPtr` fields; an inner node has one parent, so it
-- stands in the tree by value. Cell `i` of `KeyList` and cell `i + 1` of `Child` are written and moved
-- together, so they are one branch; `Child[0]` stands before the branches, and `count` is their
-- number. The chain of `Parent` fields from a node up to the root is its path.
pub mod Items
pub mod Order
pub mod Grow
pub mod Rows
pub mod Valid
pub mod Divide
pub mod Insert
pub mod Correct
pub mod Ends
pub mod Frame
pub mod Shape
pub mod Balance
pub mod Chain
pub mod Halved
pub mod Search
use gast_co_co.Prelude.{
  ℕ, zero, suc, ◌+◌, ◌-◌, ◌/◌, List, [], ◌∷◌, Bool, true, false, Option, none, some, ltb, ◌==◌,
  if◌then◌else◌,
}
use gast_co_co.Types.{AdjUnit}
use gast_co_co.Leaf.{LeafChunk, new_leaf_chunk}
use gast_co_co.Leaf

mutual
  pub data Node : Type 0 where
    leaf : ℕ → Node
    inter : Node → Branches → Node

  pub data Branches : Type 0 where
    nil : Branches
    branch : ℕ → Node → Branches → Branches

-- From a node to the root. In `first after p` the node is `Child[0]` of its parent; in
-- `later child before key after p` it is the child of `key`.
pub data Trail : Type 0 where
  root : Trail
  first : Branches → Trail → Trail
  later : Node → Branches → ℕ → Branches → Trail → Trail

-- `count` of an inner node.
unfoldable pub branch_count : Branches → ℕ
branch_count nil = 0
branch_count (branch k c bs) = suc (branch_count bs)

unfoldable pub append : Branches → Branches → Branches
append nil bs = bs
append (branch k c as') bs = branch k c (append as' bs)

-- The node that the path leads to, with all above it.
unfoldable pub plug : Trail → Node → Node
plug root n = n
plug (first after p) n = plug p (inter n after)
plug (later c before k after p) n = plug p (inter c (append before (branch k n after)))

-- `BplusTree::Find` below the root: the loop over the keys stops at the first that is above `dest`.
-- `here` is the descent into the child that the loop index points to.
unfoldable mutual
  pub find : ℕ → Node → Trail → ℕ × Trail
  find dest (leaf a) p = (a, p)
  find dest (inter c bs) p = find_key dest c nil bs p (find dest c (first bs p))

  pub find_key : ℕ → Node → Branches → Branches → Trail → ℕ × Trail → ℕ × Trail
  find_key dest c before nil p here = here
  find_key dest c before (branch k d bs) p here =
      if ltb dest k
      then here
      else find_key dest c (append before (branch k d nil)) bs p
          (find dest d (later c before k bs p))

-- `InterNode::Insert`: the first loop finds the first key that is not below the new one; the key and
-- its child are put there.
unfoldable pub insert_branch : ℕ → Node → Branches → Branches
insert_branch key new nil = branch key new nil
insert_branch key new (branch k c bs) =
    if ltb k key then branch k c (insert_branch key new bs) else branch key new (branch k c bs)

-- The branches before branch `m`, and from it on.
unfoldable pub split_at : ℕ → Branches → Branches × Branches
split_at zero bs = (nil, bs)
split_at (suc m) nil = (nil, nil)
split_at (suc m) (branch k c bs) = let (l, r) = split_at m bs in (branch k c l, r)

-- What `InterNode::Split` leaves: this node, the key that goes up, and its brother.
pub record Halves : Type 0 where
  pub this : Branches
  pub mid : ℕ
  pub brother : Node
  pub brother_branches : Branches

-- `InterNode::Split` of a node with `count` branches: branch `count / 2` gives its key to the parent
-- and its child to the brother, which takes the later branches. A node with no branch has no such
-- key; it is not split.
unfoldable pub halves : Branches → Branches → Option Halves
halves l nil = none
halves l (branch k c rest) =
    some (record { this = l; mid = k; brother = c; brother_branches = rest })

unfoldable pub split_node : Branches → Option Halves
unfolding halves
split_node bs = let (l, r) = split_at (branch_count bs / 2) bs in halves l r

-- The split and the insertion into one of the halves, in `BplusTree::Add_Node`: `InsertPos` is
-- whether the new key is above the middle one.
unfoldable pub insert_into_half : ℕ → Node → Halves → Halves
insert_into_half key new h =
    if ltb h.mid key
    then record h { brother_branches = insert_branch key new h.brother_branches }
    else record h { this = insert_branch key new h.this }

-- The subtree `left`, and what has to be inserted in the parent beside it.
pub record Grown : Type 0 where
  pub left : Node
  pub key : ℕ
  pub right : Node

-- One round of `BplusTree::Add_Node` at a parent with `Child[0]` equal to `c` and branches `bs`, in
-- which the old child has been changed in place: the changed parent, or its two halves and the key
-- for the level above.
pub data Step : Type 0 where
  done : Node → Step
  up : Grown → Step

unfoldable pub add_at : (key_cnt : ℕ) → Node → Branches → ℕ → Node → Step
add_at key_cnt c bs key new =
    if ltb (branch_count bs) key_cnt
    then done (inter c (insert_branch key new bs))
    else elim (split_node bs) [
      | none ↦ done (inter c (insert_branch key new bs))
      | some h ↦
          let h' = insert_into_half key new h in
          up (record {
            left = inter c h'.this;
            key = h'.mid;
            right = inter h'.brother h'.brother_branches;
          })
    ]

-- What is done with a changed parent, and with two halves of it.
unfoldable pub resume : (Node → Node) → (Grown → Node) → Step → Node
resume stop next (done n) = stop n
resume stop next (up g) = next g

-- `BplusTree::Add_Node` for a node that was split into `left` and `right`, going up the path; with no
-- parent, `BplusTree::Insert` and `Add_Node` make a new root of one key.
unfoldable pub add_node : (key_cnt : ℕ) → Trail → Node → ℕ → Node → Node
add_node key_cnt root left key right = inter left (branch key right nil)
add_node key_cnt (first after p) left key right =
    resume (plug p) (λ g. add_node key_cnt p g.left g.key g.right)
      (add_at key_cnt left after key right)
add_node key_cnt (later c before k after p) left key right =
    resume (plug p) (λ g. add_node key_cnt p g.left g.key g.right)
      (add_at key_cnt c (append before (branch k left after)) key right)

-- The leaf chunks by address, and the next address that `new LeafChunk()` returns.
pub record Heap : Type 0 where
  pub chunk : ℕ → LeafChunk
  pub fresh : ℕ

unfoldable pub write : Heap → ℕ → LeafChunk → Heap
write h a c = record h { chunk = λ b. if b == a then c else h.chunk b }

unfoldable pub alloc : (ncnt : ℕ) → Heap → Heap
unfolding write
alloc ncnt h = record (write h h.fresh (new_leaf_chunk ncnt)) { fresh = h.fresh + 1 }

-- The fields of `BplusTree`.
pub record BplusTree : Type 0 where
  pub root_node : Option Node
  pub leaf_cnt : ℕ

unfoldable pub empty_tree : BplusTree
empty_tree = record { root_node = none; leaf_cnt = 0 }

-- The split in `BplusTree::Insert`, and the insertion into one of the two leaf chunks.
unfoldable pub split_leaf : (ncnt : ℕ) → AdjUnit → ℕ → Heap → Heap × ℕ
split_leaf ncnt u a h =
    let b = h.fresh in
    let h1 = alloc ncnt h in
    let (old, new, key) = Leaf.split ncnt b (h.chunk a) (h1.chunk b) in
    if ltb u.dest key
    then (write (write h1 a (Leaf.insert u old)) b new, key)
    else (write (write h1 a old) b (Leaf.insert u new), key)

-- `BplusTree::Insert` from the leaf chunk that `Find` returned, as `InsertKnowPos` does.
unfoldable pub insert_at : (ncnt key_cnt : ℕ) → AdjUnit → Heap → ℕ → ℕ → Trail → Heap × BplusTree
insert_at ncnt key_cnt u h cnt a p =
    if ltb (h.chunk a).count ncnt
    then (
      write h a (Leaf.insert u (h.chunk a)),
      record { root_node = some (plug p (leaf a)); leaf_cnt = cnt },
    )
    else let (h', key) = split_leaf ncnt u a h in
      (
        h',
        record {
          root_node = some (add_node key_cnt p (leaf a) key (leaf h.fresh));
          leaf_cnt = cnt + 1;
        },
      )

-- `BplusTree::Insert`.
unfoldable pub insert : (ncnt key_cnt : ℕ) → AdjUnit → Heap → BplusTree → Heap × BplusTree
insert ncnt key_cnt u h t = elim t.root_node [
  | none ↦ insert_at ncnt key_cnt u (alloc ncnt h) (t.leaf_cnt + 1) h.fresh root
  | some n ↦ let (a, p) = find u.dest n root in insert_at ncnt key_cnt u h t.leaf_cnt a p
]

-- The descents to the leftmost and to the rightmost leaf chunk.
unfoldable mutual
  pub leaf_start : Node → ℕ
  leaf_start (leaf a) = a
  leaf_start (inter c bs) = leaf_start c

unfoldable mutual
  pub leaf_end : Node → ℕ
  leaf_end (leaf a) = a
  leaf_end (inter c bs) = last_end bs (leaf_end c)

  -- The end of the last branch's child, and `other` where there is no branch.
  pub last_end : Branches → ℕ → ℕ
  last_end nil other = other
  last_end (branch k c bs) other = last_end bs (leaf_end c)

-- `BplusTree::GetLeafStart` and `BplusTree::GetLeafEnd`; `none` is the null pointer.
unfoldable pub get_leaf_start : BplusTree → Option ℕ
get_leaf_start t = elim t.root_node [ none ↦ none | some n ↦ some (leaf_start n) ]

unfoldable pub get_leaf_end : BplusTree → Option ℕ
get_leaf_end t = elim t.root_node [ none ↦ none | some n ↦ some (leaf_end n) ]
