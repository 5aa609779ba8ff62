-- ===== src/Graph/Edge.antt =====
-- `CBList::InsertEdgeOut`, `InsertEdgeIn` and the forms with a lock, against the neighbours that the
-- readers return.
use gast_co_co.Prelude.{
  ℕ, zero, suc, ◌+◌, ◌%◌, ◌<◌, ◌≡◌, refl, sym, ap, subst, fun_ext, ◌∙◌, List, arith, pos,
  Bool-cases, inl, inr, ◌==◌, if◌then◌else◌, ==→eq, some, Bool, true, false, length,
}
use gast_co_co.Prelude.Distinct.{Absent}
use gast_co_co.Types.{AdjUnit}
use gast_co_co.Leaf.{leafchunk_level}
use gast_co_co.Tree.Valid.{dests}
use gast_co_co.Vertex.{Store, Sizes, u32_mod}
use gast_co_co.Vertex.Valid.{IsUsable, next_units}
use gast_co_co.Graph.{
  Table, CbList, set_node, set_lock, link_previous, insert_edge, insert_edge_out, insert_edge_in,
  insert_edge_out_vlock, insert_edge_in_vlock,
}
use gast_co_co.Graph.Valid.{IsTable, put_units, set_node-IsTable}
use gast_co_co.Graph.Insert.{link_last-IsRelinked, insert_vertex-IsTable}

pub put_back {ℓ} : {A : Type ℓ} → (f : ℕ → A) (i : ℕ) → (λ j. if j == i then f i else f j) ≡ f
put_back f i =
    fun_ext λ j. elim (Bool-cases (j == i)) [
      | inl e ↦ rw e (ap f (sym (==→eq j i e)))
      | inr e ↦ rw e refl
    ]

-- A table in which only the store has changed.
pub restore : (t : Table) (i : ℕ) (s : Store) → set_node t i (t.node i) s ≡ record t { store = s }
unfolding set_node
restore t i s = λ k. record { size = t.size; node = put_back t.node i k; store = s }

-- The link of the vertex before changes no units.
link_previous-IsTable :
    (z : Sizes) (us : ℕ → List AdjUnit) (t : Table) (flag src : ℕ)
    → IsTable z us t
    → src < t.size
    → (t' : Table) × (link_previous flag src t ≡ some t') × IsTable z us t' × (t'.size ≡ t.size)
unfolding link_previous
link_previous-IsTable z us t flag zero valid lt = (t, refl, valid, refl)
link_previous-IsTable z us t flag (suc i) valid lt = elim (Bool-cases (flag == 2)) [
  | inr e ↦ (t, rw e refl, valid, refl)
  | inl e ↦
      let below : i < t.size = omega arith in
      let w = valid.vertices i below in
      let (s', q, is) =
        link_last-IsRelinked z w.pointer (t.node (suc i)).neighboor w.type (pos leafchunk_level) i
          t.store (t.node i) (us i) w.vertex in
      let same =
        set_node-IsTable z us t i (t.node i) s' (us i) valid below
          (record {
            pointer = (t.node (suc i)).neighboor;
            type = pos leafchunk_level;
            vertex = is.vertex;
          })
          is.is_local in
      (
        record t { store = s' },
        rw (e, q) refl,
        subst (λ f. IsTable z f (record t { store = s' })) (put_back us i)
            (subst (IsTable z (put_units us i (us i))) (restore t i s') same),
        refl,
      )
]

-- The units of the vertices after the insertion of `u` at `src`.
abbrev pub inserted : Sizes → ℕ → AdjUnit → (ℕ → List AdjUnit) → ℕ → List AdjUnit
inserted z src u us = put_units us src (next_units z u (us src))

-- When an edge can be inserted: its vertex is in the table and does not have the neighbour yet.
pub record IsNew (us : ℕ → List AdjUnit) (t : Table) (src : ℕ) (u : AdjUnit) : Type 0 where
  pub bound : src < t.size
  pub absent : Absent u.dest (dests (us src))
  pub room : length (us src) + 1 < u32_mod

insert_edge-IsTable :
    (z : Sizes) (us : ℕ → List AdjUnit) (t : Table) (src : ℕ) (u : AdjUnit)
    → IsUsable z
    → IsTable z us t
    → IsNew us t src u
    → (t' : Table) × (insert_edge z src u t ≡ some (t', true))
      × IsTable z (inserted z src u us) t'
      × (t'.size ≡ t.size)
unfolding insert_edge
insert_edge-IsTable z us t src u usable valid new =
    let (t', flag, e, valid', same, code) =
      insert_vertex-IsTable z us t src u usable valid new.bound new.absent new.room in
    let (t'', e', valid'', same') =
      link_previous-IsTable z (inserted z src u us) t' flag src valid'
        (omega (arith, same, new.bound)) in
    let set : (flag == 0) ≡ false = rw code (ground arith) in
    (t'', rw (e, set, e', insert_edge), valid'', same' ∙ same)

-- Both tables are valid.
pub record IsGraph (z : Sizes) (outs ins : ℕ → List AdjUnit) (g : CbList) : Type 0 where
  pub out_valid : IsTable z outs g.vertex_table_out
  pub in_valid : IsTable z ins g.vertex_table_in

-- `InsertEdgeOut` of a new edge in a valid graph, with level-1 chunks of one cell or more and leaf
-- chunks of two or more: it returns true, keeps both tables valid, adds the unit to its vertex and
-- to no other, and counts the edge.
pub insert_edge_out-IsGraph :
    (z : Sizes) (outs ins : ℕ → List AdjUnit) (g : CbList) (src : ℕ) (u : AdjUnit)
    → IsUsable z
    → IsGraph z outs ins g
    → IsNew outs g.vertex_table_out src u
    → (g' : CbList) × (insert_edge_out z src u g ≡ some (g', true))
      × IsGraph z (inserted z src u outs) ins g'
      × (g'.edge_num ≡ (g.edge_num + 1) % u32_mod)
unfolding insert_edge_out
insert_edge_out-IsGraph z outs ins g src u usable valid new =
    let (t, e, is, same) =
      insert_edge-IsTable z outs g.vertex_table_out src u usable valid.out_valid new in
    (
      record g { vertex_table_out = t; edge_num = (g.edge_num + 1) % u32_mod },
      rw (e, insert_edge_out),
      record { out_valid = is; in_valid = valid.in_valid },
      refl,
    )

-- `InsertEdgeIn` of a new edge in a valid graph, with level-1 chunks of one cell or more and leaf
-- chunks of two or more: it returns true, keeps both tables valid, adds the unit to its vertex and
-- to no other, and counts the edge.
pub insert_edge_in-IsGraph :
    (z : Sizes) (outs ins : ℕ → List AdjUnit) (g : CbList) (src : ℕ) (u : AdjUnit)
    → IsUsable z
    → IsGraph z outs ins g
    → IsNew ins g.vertex_table_in src u
    → (g' : CbList) × (insert_edge_in z src u g ≡ some (g', true))
      × IsGraph z outs (inserted z src u ins) g'
      × (g'.edge_num ≡ (g.edge_num + 1) % u32_mod)
unfolding insert_edge_in
insert_edge_in-IsGraph z outs ins g src u usable valid new =
    let (t, e, is, same) =
      insert_edge-IsTable z ins g.vertex_table_in src u usable valid.in_valid new in
    (
      record g { vertex_table_in = t; edge_num = (g.edge_num + 1) % u32_mod },
      rw (e, insert_edge_in),
      record { out_valid = valid.out_valid; in_valid = is },
      refl,
    )

released :
    (locks : ℕ → Bool) (i : ℕ) → locks i ≡ false → set_lock (set_lock locks i true) i false ≡ locks
released locks i free = fun_ext λ j. elim (Bool-cases (j == i)) [
  | inl e ↦ rw e (sym (ap locks (==→eq j i e) ∙ free))
  | inr e ↦ rw e refl
]

-- `InsertEdgeOutVLock` of a new edge in a valid graph, its vertex's lock being free, with level-1
-- chunks of one cell or more and leaf chunks of two or more: it returns true, keeps both tables
-- valid, adds the unit to its vertex and to no other, counts the edge, and leaves the locks of the
-- table as they were.
pub insert_edge_out_vlock-IsGraph :
    (z : Sizes) (outs ins : ℕ → List AdjUnit) (g : CbList) (src : ℕ) (u : AdjUnit)
    → IsUsable z
    → IsGraph z outs ins g
    → IsNew outs g.vertex_table_out src u
    → g.writelock_out src ≡ false
    → (g' : CbList) × (insert_edge_out_vlock z src u g ≡ some (g', true))
      × IsGraph z (inserted z src u outs) ins g'
      × (g'.edge_num ≡ (g.edge_num + 1) % u32_mod)
      × (g'.writelock_out ≡ g.writelock_out)
unfolding insert_edge_out_vlock
insert_edge_out_vlock-IsGraph z outs ins g src u usable valid new free =
    let (t, flag, e, is, same, code) =
      insert_vertex-IsTable z outs g.vertex_table_out src u usable valid.out_valid new.bound
        new.absent new.room in
    let set : (flag == 0) ≡ false = rw code (ground arith) in
    (
      record g {
        vertex_table_out = t;
        edge_num = (g.edge_num + 1) % u32_mod;
        writelock_out = set_lock (set_lock g.writelock_out src true) src false;
      },
      rw (free, e, set) refl,
      record { out_valid = is; in_valid = valid.in_valid },
      refl,
      released g.writelock_out src free,
    )

-- `InsertEdgeInVLock` of a new edge in a valid graph, its vertex's lock being free, with level-1
-- chunks of one cell or more and leaf chunks of two or more: it returns true, keeps both tables
-- valid, adds the unit to its vertex and to no other, counts the edge, and leaves the locks of the
-- table as they were.
pub insert_edge_in_vlock-IsGraph :
    (z : Sizes) (outs ins : ℕ → List AdjUnit) (g : CbList) (src : ℕ) (u : AdjUnit)
    → IsUsable z
    → IsGraph z outs ins g
    → IsNew ins g.vertex_table_in src u
    → g.writelock_in src ≡ false
    → (g' : CbList) × (insert_edge_in_vlock z src u g ≡ some (g', true))
      × IsGraph z outs (inserted z src u ins) g'
      × (g'.edge_num ≡ (g.edge_num + 1) % u32_mod)
      × (g'.writelock_in ≡ g.writelock_in)
unfolding insert_edge_in_vlock
insert_edge_in_vlock-IsGraph z outs ins g src u usable valid new free =
    let (t, flag, e, is, same, code) =
      insert_vertex-IsTable z ins g.vertex_table_in src u usable valid.in_valid new.bound new.absent
        new.room in
    let set : (flag == 0) ≡ false = rw code (ground arith) in
    (
      record g {
        vertex_table_in = t;
        edge_num = (g.edge_num + 1) % u32_mod;
        writelock_in = set_lock (set_lock g.writelock_in src true) src false;
      },
      rw (free, e, set) refl,
      record { out_valid = valid.out_valid; in_valid = is },
      refl,
      released g.writelock_in src free,
    )
