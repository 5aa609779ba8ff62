-- ===== src/Tree/Shape.antt =====
-- The shape of the tree: all leaf chunks stand equally deep, and every inner node has at least one
-- key and at most `key_cnt`.
use gast_co_co.Prelude.{
  ℕ, zero, suc, ◌+◌, ◌-◌, ◌≤◌, ◌<◌, ◌≡◌, refl, ap, arith, Bool-cases, inl, inr, ltb,
}
use gast_co_co.Tree.{
  Node, leaf, inter, Branches, nil, branch, Trail, root, first, later, append, plug, branch_count,
  insert_branch, split_at,
}

-- Nodes of a height, and branches whose children all have it.
mutual
  pub data IsNode (key_cnt : ℕ) : ℕ → Node → Type 0 where
    leaf_node : {a : ℕ} → IsNode key_cnt zero (leaf a)
    inter_node :
        {d : ℕ} {c : Node} {bs : Branches}
        → IsNode key_cnt d c
        → AreBranches key_cnt d bs
        → 1 ≤ branch_count bs
        → branch_count bs ≤ key_cnt
        → IsNode key_cnt (suc d) (inter c bs)

  pub data AreBranches (key_cnt : ℕ) : ℕ → Branches → Type 0 where
    no_branch : {d : ℕ} → AreBranches key_cnt d nil
    one_more :
        {d k : ℕ} {c : Node} {bs : Branches}
        → IsNode key_cnt d c
        → AreBranches key_cnt d bs
        → AreBranches key_cnt d (branch k c bs)

-- A path whose missing node has the height `d`, in a tree of the height `top`.
pub data IsPath (key_cnt top : ℕ) : ℕ → Trail → Type 0 where
  at_root : IsPath key_cnt top top root
  at_first :
      {d : ℕ} {after : Branches} {p : Trail}
      → AreBranches key_cnt d after
      → 1 ≤ branch_count after
      → branch_count after ≤ key_cnt
      → IsPath key_cnt top (suc d) p
      → IsPath key_cnt top d (first after p)
  at_later :
      {d k : ℕ} {c : Node} {before after : Branches} {p : Trail}
      → IsNode key_cnt d c
      → AreBranches key_cnt d before
      → AreBranches key_cnt d after
      → branch_count before + branch_count after < key_cnt
      → IsPath key_cnt top (suc d) p
      → IsPath key_cnt top d (later c before k after p)

pub branch_count-append :
    (bs cs : Branches) → branch_count (append bs cs) ≡ branch_count bs + branch_count cs
unfolding branch_count append
branch_count-append nil cs = omega arith
branch_count-append (branch k c bs) cs = omega (arith, branch_count-append bs cs)

pub branch_count-insert_branch :
    (key : ℕ) (new : Node) (bs : Branches)
    → branch_count (insert_branch key new bs) ≡ suc (branch_count bs)
unfolding branch_count insert_branch
branch_count-insert_branch key new nil = refl
branch_count-insert_branch key new (branch k c bs) = elim (Bool-cases (ltb k key)) [
  | inl lt ↦ rw lt (ap suc (branch_count-insert_branch key new bs))
  | inr ge ↦ rw ge
]

pub count-middle :
    (before : Branches) (k : ℕ) (n : Node) (after : Branches)
    → branch_count (append before (branch k n after))
      ≡ suc (branch_count before + branch_count after)
unfolding branch_count
count-middle before k n after = omega (arith, branch_count-append before (branch k n after))

pub split_at-counts :
    (m : ℕ) (bs : Branches)
    → m ≤ branch_count bs
    → (branch_count (split_at m bs).0 ≡ m) × (branch_count (split_at m bs).1 ≡ branch_count bs - m)
unfolding branch_count split_at
split_at-counts zero bs h = (refl, omega arith)
split_at-counts (suc m) nil h = absurd (omega arith)
split_at-counts (suc m) (branch k c bs) h =
    let (l, r) = split_at-counts m bs (omega arith) in (ap suc l, omega arith)

module _ {key_cnt : ℕ} where
  pub append-AreBranches :
      {d : ℕ} {bs cs : Branches}
      → AreBranches key_cnt d bs
      → AreBranches key_cnt d cs
      → AreBranches key_cnt d (append bs cs)
  unfolding append
  append-AreBranches no_branch h = h
  append-AreBranches (one_more c b) h = one_more c (append-AreBranches b h)

  pub middle-AreBranches :
      {d : ℕ} (k : ℕ) {before after : Branches} {n : Node}
      → AreBranches key_cnt d before
      → IsNode key_cnt d n
      → AreBranches key_cnt d after
      → AreBranches key_cnt d (append before (branch k n after))
  middle-AreBranches k b n a = append-AreBranches b (one_more n a)

  pub plug-IsNode :
      {top d : ℕ} {p : Trail} {n : Node}
      → IsPath key_cnt top d p
      → IsNode key_cnt d n
      → IsNode key_cnt top (plug p n)
  unfolding plug
  plug-IsNode at_root h = h
  plug-IsNode (at_first bs lo hi p) h = plug-IsNode p (inter_node h bs lo hi)
  plug-IsNode {n} (at_later {k} {before} {after} c bs cs hi p) h = plug-IsNode p (
      inter_node c (middle-AreBranches k bs h cs) (omega (arith, count-middle before k n after))
        (omega (arith, count-middle before k n after)))

  pub insert_branch-AreBranches :
      {d : ℕ} (key : ℕ) {new : Node} (bs : Branches)
      → IsNode key_cnt d new
      → AreBranches key_cnt d bs
      → AreBranches key_cnt d (insert_branch key new bs)
  unfolding insert_branch
  insert_branch-AreBranches key nil n h = one_more n h
  insert_branch-AreBranches key (branch k c bs) n (one_more hc hbs) =
      elim (Bool-cases (ltb k key)) [
        | inl lt ↦ rw lt (one_more hc (insert_branch-AreBranches key bs n hbs))
        | inr ge ↦ rw ge (one_more n (one_more hc hbs))
      ]

  pub split_at-AreBranches :
      {d : ℕ} (m : ℕ) (bs : Branches)
      → AreBranches key_cnt d bs
      → AreBranches key_cnt d (split_at m bs).0 × AreBranches key_cnt d (split_at m bs).1
  unfolding split_at
  split_at-AreBranches zero bs h = (no_branch, h)
  split_at-AreBranches (suc m) nil h = (no_branch, no_branch)
  split_at-AreBranches (suc m) (branch k c bs) (one_more hc hbs) =
      let (l, r) = split_at-AreBranches m bs hbs in (one_more hc l, r)
