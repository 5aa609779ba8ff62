-- ===== src/Vertex/Valid.antt =====
-- What a vertex stands for in its two forms, and what an insertion is to do.
use gast_co_co.Prelude.{
  ℕ, ◌<◌, ◌≤◌, ◌≡◌, ◌≢◌, subst, ◌⊎◌, inl, inr, List, [], ◌∷◌, ◌++◌, ltb, ◌==◌, if◌then◌else◌, ℤ,
  Bool-cases, length, append-nil,
}
use gast_co_co.Prelude.Distinct.{Distinct}
use mathlib.Core.List.Perm
use mathlib.Core.List.{Perm, perm_middle}
use gast_co_co.Types.{AdjUnit, NextPointer, lv1_chunk}
use gast_co_co.Leaf.Insert.{insert_sorted}
use gast_co_co.Tree.{empty_tree, get_leaf_start}
use gast_co_co.Tree.Valid.{dests}
use gast_co_co.Tree.Correct.{IsTree, tree_units}
use gast_co_co.Tree.Ends.{tree_addresses}
use gast_co_co.Tree.Frame.{IsFramed}
use gast_co_co.Vertex.{Store, CblNode, Sizes, lv1_entries, leaf_pointer}
use gast_co_co.Vertex.Convert.{insert_all_sorted, insert_all_sorted-Perm, insert_sorted-Perm}

pub record IsUsable (z : Sizes) : Type 0 where
  pub lv1_room : 1 ≤ z.lv1_ncnt
  pub leaf_room : 2 ≤ z.leaf_ncnt

-- A vertex in the first form: its units stand in the level-1 chunk at `a`, in the order of their
-- insertion, and `p` and `t` are the link of that chunk.
pub record IsSmall (z : Sizes) (s : Store) (p : NextPointer) (t : ℤ) (a : ℕ) (v : CblNode)
    (us : List AdjUnit) : Type 0 where
  pub level : v.level ≡ 1
  pub neighboor : v.neighboor ≡ lv1_chunk a
  pub counted : v.neighboor_cnt ≡ length us
  pub in_use : (s.lv1 a).count ≡ length us
  pub size : length (s.lv1 a).neighboor_chunk ≡ z.lv1_ncnt
  pub fits : length us ≤ z.lv1_ncnt
  pub entries_are : lv1_entries (s.lv1 a) ≡ us
  pub link : (s.lv1 a).next_ptr ≡ p
  pub link_type : (s.lv1 a).next_type ≡ t
  pub no_tree : v.bpt ≡ empty_tree
  pub chunks : v.chunk_cnt ≡ 1
  pub distinct : Distinct (dests us)

-- A vertex in the second form: its units stand in the tree, and `p` and `t` are the link of the
-- tree's last leaf chunk.
pub record IsLarge (z : Sizes) (s : Store) (p : NextPointer) (t : ℤ) (v : CblNode)
    (us : List AdjUnit) : Type 0 where
  pub level : v.level ≡ 2
  pub tree : IsTree z.leaf_ncnt p t s.heap v.bpt
  pub units_are : tree_units s.heap v.bpt ≡ us
  pub counted : v.neighboor_cnt ≡ length us
  pub full : z.lv1_ncnt < length us
  pub neighboor : v.neighboor ≡ leaf_pointer (get_leaf_start v.bpt)
  pub chunks : v.chunk_cnt ≡ v.bpt.leaf_cnt

abbrev pub IsVertex :
    (z : Sizes) (s : Store) (p : NextPointer) (t : ℤ) (a : ℕ) → CblNode → List AdjUnit → Type 0
IsVertex z s p t a v us = IsSmall z s p t a v us ⊎ IsLarge z s p t v us

-- The units after an insertion, in the order in which the vertex keeps them.
abbrev pub next_units : Sizes → AdjUnit → List AdjUnit → List AdjUnit
next_units z u us =
    if ltb (length us) z.lv1_ncnt
    then us ++ u ∷ []
    else if length us == z.lv1_ncnt
    then insert_sorted u (insert_all_sorted us [])
    else insert_sorted u us

-- What one insertion changes: the vertex's own level-1 chunk at most, and the leaf chunks of its tree.
pub record IsLocal (a : ℕ) (s s' : Store) (v v' : CblNode) : Type 0 where
  pub lv1_kept : (x : ℕ) → x ≢ a → s'.lv1 x ≡ s.lv1 x
  pub framed : IsFramed s.heap s'.heap (tree_addresses v.bpt) (tree_addresses v'.bpt)

-- The result of `CBLNode::Insert` of `u` in a vertex with the units `us`.
pub record IsResult (z : Sizes) (p : NextPointer) (t : ℤ) (a : ℕ) (u : AdjUnit) (us : List AdjUnit)
    (s : Store) (v : CblNode) (r : Store × CblNode × ℕ) : Type 0 where
  pub vertex : IsVertex z r.0 p t a r.1 (next_units z u us)
  pub code : r.2 ≡ (if length us == z.lv1_ncnt then 2 else 1)
  pub is_local : IsLocal a s r.0 v r.1

-- In every one of the three cases the units after an insertion are, up to order, those before it
-- and the new one.
pub next_units-Perm :
    (z : Sizes) (u : AdjUnit) (us : List AdjUnit) → Perm (next_units z u us) (u ∷ us)
next_units-Perm z u us = elim (Bool-cases (ltb (length us) z.lv1_ncnt)) [
  | inl lt ↦ rw lt (subst (λ x. Perm (us ++ u ∷ []) (u ∷ x)) (append-nil us) (perm_middle us []))
  | inr ge ↦ elim (Bool-cases (length us == z.lv1_ncnt)) [
    | inl e ↦
        rw (ge, e)
          (Perm.trans (insert_sorted-Perm u (insert_all_sorted us [])) (
            Perm.cons u (
              subst (Perm (insert_all_sorted us [])) (append-nil us)
                (insert_all_sorted-Perm us []))))
    | inr e ↦ rw (ge, e) (insert_sorted-Perm u us)
  ]
]
