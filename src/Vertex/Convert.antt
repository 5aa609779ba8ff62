-- ===== src/Vertex/Convert.antt =====
-- The loop of `CBLNode::Insert` that moves the units of a full level-1 chunk to the tree.
use gast_co_co.Prelude.{
  ℕ, ◌+◌, ◌≤◌, ◌≡◌, ◌≢◌, refl, sym, ap, subst, ◌∙◌, List, [], ◌∷◌, ◌++◌, arith, ltb, ℤ, pos,
  Bool-cases, inl, inr, length,
}
use gast_co_co.Prelude.Distinct.{Absent, Distinct}
use mathlib.Core.List.Perm
use mathlib.Core.List.{Perm, perm_middle}
use gast_co_co.Types.{AdjUnit, NextPointer, null}
use gast_co_co.Leaf.{leafchunk_level}
use gast_co_co.Leaf.Insert.{insert_sorted, length-insert_sorted}
use gast_co_co.Tree
use gast_co_co.Tree.{Heap, BplusTree, empty_tree}
use gast_co_co.Tree.Rows.{addresses}
use gast_co_co.Tree.Valid.{dests}
use gast_co_co.Tree.Correct.{IsTree, tree_units, root_items, insert-IsInserted}
use gast_co_co.Tree.Frame.{IsFramed, IsFramed-trans, insert-IsFramed}
use gast_co_co.Vertex.{insert_all}

-- The units `us` inserted one after the other.
unfoldable pub insert_all_sorted : List AdjUnit → List AdjUnit → List AdjUnit
insert_all_sorted [] acc = acc
insert_all_sorted (u ∷ us) acc = insert_all_sorted us (insert_sorted u acc)

-- No unit has a neighbour that is there before it.
abbrev pub AllNew : List AdjUnit → List AdjUnit → Type 0
AllNew [] acc = Unit
AllNew (u ∷ us) acc = Absent u.dest (dests acc) × AllNew us (insert_sorted u acc)

pub insert_sorted-Perm : (u : AdjUnit) (us : List AdjUnit) → Perm (insert_sorted u us) (u ∷ us)
unfolding insert_sorted
insert_sorted-Perm u [] = Perm.refl (u ∷ [])
insert_sorted-Perm u (x ∷ us) = elim (Bool-cases (ltb x.dest u.dest)) [
  | inl lt ↦ rw lt (Perm.trans (Perm.cons x (insert_sorted-Perm u us)) (Perm.swap u x us))
  | inr ge ↦ rw ge (Perm.refl (u ∷ x ∷ us))
]

pub insert_all_sorted-Perm : (us acc : List AdjUnit) → Perm (insert_all_sorted us acc) (us ++ acc)
unfolding insert_all_sorted
insert_all_sorted-Perm [] acc = Perm.refl acc
insert_all_sorted-Perm (u ∷ us) acc =
    Perm.trans (insert_all_sorted-Perm us (insert_sorted u acc))
      (Perm.trans (Perm.append_left us (insert_sorted-Perm u acc)) (perm_middle us acc))

pub length-insert_all_sorted :
    (us acc : List AdjUnit) → length (insert_all_sorted us acc) ≡ length us + length acc
unfolding insert_all_sorted
length-insert_all_sorted [] acc = omega arith
length-insert_all_sorted (u ∷ us) acc =
    omega (arith, length-insert_all_sorted us (insert_sorted u acc), length-insert_sorted u acc)

pub Absent-insert_sorted :
    (d : ℕ) (u : AdjUnit) (us : List AdjUnit)
    → d ≢ u.dest
    → Absent d (dests us)
    → Absent d (dests (insert_sorted u us))
unfolding insert_sorted
Absent-insert_sorted d u [] ne h = (ne, tt)
Absent-insert_sorted d u (x ∷ us) ne h = elim (Bool-cases (ltb x.dest u.dest)) [
  | inl lt ↦ rw lt (h.0, Absent-insert_sorted d u us ne h.1)
  | inr ge ↦ rw ge (ne, h)
]

pub Absent-insert_all_sorted :
    (d : ℕ) (us acc : List AdjUnit)
    → Absent d (dests us)
    → Absent d (dests acc)
    → Absent d (dests (insert_all_sorted us acc))
unfolding insert_all_sorted
Absent-insert_all_sorted d [] acc h k = k
Absent-insert_all_sorted d (u ∷ us) acc h k =
    Absent-insert_all_sorted d us (insert_sorted u acc) h.1 (Absent-insert_sorted d u acc h.0 k)

-- Every neighbour of the first list is absent from the second.
abbrev pub Apart : List AdjUnit → List AdjUnit → Type 0
Apart [] acc = Unit
Apart (u ∷ us) acc = Absent u.dest (dests acc) × Apart us acc

Apart-insert_sorted :
    (us : List AdjUnit) (u : AdjUnit) (acc : List AdjUnit)
    → Absent u.dest (dests us)
    → Apart us acc
    → Apart us (insert_sorted u acc)
Apart-insert_sorted [] u acc h k = tt
Apart-insert_sorted (x ∷ us) u acc h k =
    (Absent-insert_sorted x.dest u acc (λ e. h.0 (sym e)) k.0, Apart-insert_sorted us u acc h.1 k.1)

AllNew-of_Distinct : (us acc : List AdjUnit) → Distinct (dests us) → Apart us acc → AllNew us acc
AllNew-of_Distinct [] acc h k = tt
AllNew-of_Distinct (u ∷ us) acc h k =
    (k.0, AllNew-of_Distinct us (insert_sorted u acc) h.1 (Apart-insert_sorted us u acc h.0 k.1))

pub Apart-nil : (us : List AdjUnit) → Apart us []
Apart-nil [] = tt
Apart-nil (u ∷ us) = (tt, Apart-nil us)

-- A tree that took in units, in a heap in which nothing else changed.
pub record HasTaken (ncnt : ℕ) (p : NextPointer) (t : ℤ) (h : Heap) (tree : BplusTree)
    (us : List AdjUnit) (r : Heap × BplusTree) : Type 0 where
  pub valid : IsTree ncnt p t r.0 r.1
  pub units_are : tree_units r.0 r.1 ≡ us
  pub framed :
      IsFramed h r.0 (addresses (root_items tree.root_node)) (addresses (root_items r.1.root_node))

pub insert-HasTaken :
    (ncnt key_cnt : ℕ) (u : AdjUnit) (p : NextPointer) (t : ℤ) (h : Heap) (tree : BplusTree)
    → 2 ≤ ncnt
    → IsTree ncnt p t h tree
    → Absent u.dest (dests (tree_units h tree))
    → HasTaken ncnt p t h tree
        (insert_sorted u (tree_units h tree))
        (Tree.insert ncnt key_cnt u h tree)
insert-HasTaken ncnt key_cnt u p t h tree two valid new =
    let done = insert-IsInserted ncnt key_cnt u p t h tree two valid new in
    record {
      valid = done.tree;
      units_are = done.units_are;
      framed = insert-IsFramed ncnt key_cnt u p t h tree two valid new;
    }

pub insert_all-HasTaken :
    (ncnt key_cnt : ℕ) (us : List AdjUnit) (p : NextPointer) (t : ℤ) (h : Heap) (tree : BplusTree)
    → 2 ≤ ncnt
    → IsTree ncnt p t h tree
    → Distinct (dests us)
    → Apart us (tree_units h tree)
    → HasTaken ncnt p t h tree
        (insert_all_sorted us (tree_units h tree))
        (insert_all ncnt key_cnt us h tree)
unfolding insert_all insert_all_sorted
insert_all-HasTaken ncnt key_cnt [] p t h tree two valid ds new = record {
  valid = valid;
  units_are = refl;
  framed = record {
    grown_heap = omega arith;
    kept = λ x lt out. refl;
    inside = λ x lt out. out;
    front = λ x e. e;
  };
}
insert_all-HasTaken ncnt key_cnt (u ∷ us) p t h tree two valid ds new =
    let r = Tree.insert ncnt key_cnt u h tree in
    let one = insert-HasTaken ncnt key_cnt u p t h tree two valid new.0 in
    let rest = insert_all-HasTaken ncnt key_cnt us p t r.0 r.1 two one.valid ds.1 (
      subst (Apart us) (sym one.units_are)
        (Apart-insert_sorted us u (tree_units h tree) ds.0 new.1)) in
    record {
      valid = rest.valid;
      units_are = rest.units_are ∙ ap (insert_all_sorted us) one.units_are;
      framed =
          IsFramed-trans (addresses (root_items tree.root_node))
            (addresses (root_items r.1.root_node))
            (addresses (root_items (insert_all ncnt key_cnt us r.0 r.1).1.root_node)) one.framed
            rest.framed;
    }

pub empty-IsTree : (ncnt : ℕ) (h : Heap) → IsTree ncnt null (pos leafchunk_level) h empty_tree
unfolding empty_tree
empty-IsTree ncnt h = record {
  row = record { sorted = tt; chunks = tt; distinct = tt; allocated = tt; linked = tt };
  counted = refl;
  ending = (refl, refl);
}

pub empty-units : (h : Heap) → tree_units h empty_tree ≡ []
unfolding empty_tree
empty-units h = refl
