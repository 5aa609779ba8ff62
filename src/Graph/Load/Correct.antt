-- ===== src/Graph/Load/Correct.antt =====
-- Loading a list of edges: the table that it makes, and the parts of a batch.
use gast_co_co.Prelude.{
  ℕ, ◌≡◌, refl, sym, subst, ◌∙◌, List, [], ◌∷◌, some, map, pos, inl, length-replicate, arith, suc,
  ◌≤◌, length, Bool, true, false,
}
use gast_co_co.Types.{AdjUnit, null, Gedge}
use gast_co_co.Leaf.{leafchunk_level, no_unit}
use gast_co_co.Tree.{empty_tree}
use gast_co_co.Vertex.{Sizes, new_cbl_node, new_lv1_chunk}
use gast_co_co.Vertex.Valid.{IsUsable}
use gast_co_co.Graph.{Table}
use gast_co_co.Graph.Valid.{IsTable}
use gast_co_co.Graph.Insert.{insert_vertex-IsTable}
use gast_co_co.Graph.Edge.{inserted}
use gast_co_co.Graph.Load.{
  Insertion, load, new_table, GraphMode, pull, push, mixed, load_both, load_graph, out_insertion,
  in_insertion, Direction, not_made, load_direction,
}
use gast_co_co.Graph.Load.Chained.{IsBuilt, connected-IsBuilt}
use gast_co_co.Graph.Load.Order.{IsLoadable, IsLoadable-head, IsLoadable-tail, loaded, units_at}

-- A list of insertions, in any order, into a valid table, no vertex getting a neighbour twice or that
-- it has, nor 2^32 neighbours, with level-1 chunks of one cell or more and leaf chunks of two or
-- more: the loop ends, and the table is valid with the units that the insertions, one after the
-- other, leave.
pub load-IsTable :
    (z : Sizes) (es : List Insertion) (us : ℕ → List AdjUnit) (t : Table)
    → IsUsable z
    → IsTable z us t
    → IsLoadable t.size us es
    → (t' : Table) × (load z es t ≡ some t') × IsTable z (loaded z es us) t' × (t'.size ≡ t.size)
unfolding load
load-IsTable z [] us t usable valid h = (t, refl, valid, refl)
load-IsTable z ((src, u) ∷ es) us t usable valid h =
    let (new, room) = IsLoadable-head t.size us src u es h in
    let (t1, flag, e, valid1, same, code) =
      insert_vertex-IsTable z us t src u usable valid h.in_range.0 new room in
    let (t2, e', valid2, same') = load-IsTable z es (inserted z src u us) t1 usable valid1 (
      subst (λ n. IsLoadable n (inserted z src u us) es) (sym same)
        (IsLoadable-tail t.size us src u es h z)) in
    (t2, rw (e, e', load), valid2, same' ∙ same)

pub new_table-IsTable : (z : Sizes) (n : ℕ) → IsTable z (λ _. []) (new_table z n)
unfolding new_table new_cbl_node new_lv1_chunk empty_tree
new_table-IsTable z n = record {
  vertices = λ i lt. record {
    pointer = null;
    type = pos leafchunk_level;
    vertex = inl (record {
      level = refl;
      neighboor = refl;
      counted = refl;
      in_use = refl;
      size = length-replicate z.lv1_ncnt no_unit;
      fits = omega arith;
      entries_are = refl;
      link = refl;
      link_type = refl;
      no_tree = refl;
      chunks = refl;
      distinct = tt;
    });
  };
  apart = λ i j lt lt' ne. tt;
}

-- The insertions of one direction and its chain.
pub load_direction-IsBuilt :
    (z : Sizes) (m : ℕ) (is : List Insertion)
    → IsUsable z
    → IsLoadable (suc m) (λ _. []) is
    → length (units_at m is) ≤ z.lv1_ncnt
    → (d : Direction) × (load_direction z is (suc m) ≡ some d) × IsBuilt z m is d
unfolding load_direction new_table
load_direction-IsBuilt z m is usable loadable few =
    let (t, loads, valid, size) =
      load-IsTable z is (λ _. []) (new_table z (suc m)) usable (new_table-IsTable z (suc m))
        loadable in
    let (d, connects, built) = connected-IsBuilt z m is t valid size few in
    (d, rw (load_direction, loads) connects, built)

load_both-IsTable :
    (z : Sizes) (es : List Gedge) (us vs : ℕ → List AdjUnit) (out into : Table)
    → IsUsable z
    → IsTable z us out
    → IsTable z vs into
    → IsLoadable out.size us (map out_insertion es)
    → IsLoadable into.size vs (map in_insertion es)
    → (out' : Table) × (into' : Table) × (load_both z es out into ≡ some (out', into'))
      × IsTable z (loaded z (map out_insertion es) us) out'
      × IsTable z (loaded z (map in_insertion es) vs) into'
      × (out'.size ≡ out.size)
      × (into'.size ≡ into.size)
unfolding load_both
load_both-IsTable z [] us vs out into usable valid valid' h h' =
    (out, into, refl, valid, valid', refl, refl)
load_both-IsTable z (e ∷ es) us vs out into usable valid valid' h h' =
    let (src, u) = out_insertion e in
    let (dst, w) = in_insertion e in
    let os = map out_insertion es in
    let is = map in_insertion es in
    let (new, room) = IsLoadable-head out.size us src u os h in
    let (new', room') = IsLoadable-head into.size vs dst w is h' in
    let (t1, flag, q, valid1, same, code) =
      insert_vertex-IsTable z us out src u usable valid h.in_range.0 new room in
    let (t1', flag', q', valid1', same', code') =
      insert_vertex-IsTable z vs into dst w usable valid' h'.in_range.0 new' room' in
    let (out2, into2, q2, valid2, valid2', size2, size2') =
      load_both-IsTable z es (inserted z src u us) (inserted z dst w vs) t1 t1' usable valid1
        valid1'
        (subst (λ n. IsLoadable n (inserted z src u us) os) (sym same)
          (IsLoadable-tail out.size us src u os h z))
        (subst (λ n. IsLoadable n (inserted z dst w vs) is) (sym same')
          (IsLoadable-tail into.size vs dst w is h' z)) in
    (out2, into2, rw (q, q', q2, load_both), valid2, valid2', size2 ∙ same, size2' ∙ same')

-- What a mode inserts in the two tables.
abbrev pub out_insertions : GraphMode → List Gedge → List Insertion
out_insertions pull es = []
out_insertions push es = map out_insertion es
out_insertions mixed es = map out_insertion es

abbrev pub in_insertions : GraphMode → List Gedge → List Insertion
in_insertions pull es = map in_insertion es
in_insertions push es = []
in_insertions mixed es = map in_insertion es

-- Whether a mode makes the table of a direction.
abbrev pub makes_out : GraphMode → Bool
makes_out pull = false
makes_out push = true
makes_out mixed = true

abbrev pub makes_in : GraphMode → Bool
makes_in pull = true
makes_in push = false
makes_in mixed = true

-- A direction that is made, or one that is not.
abbrev pub IsDirection : Sizes → ℕ → (made : Bool) → List Insertion → Direction → Type 0
IsDirection z m true is d = IsBuilt z m is d
IsDirection z m false is d = d ≡ not_made z

-- The constructor in each of its modes, for a list of edges between the vertices below `suc m` in which
-- no vertex that the mode stores has a neighbour twice or 2^32 neighbours, and the last one at most as
-- many as a level-1 chunk has cells, with level-1 chunks of one cell or more and leaf chunks of two or
-- more: it makes the tables of the mode, valid, each vertex having the units of its edges in the list
-- up to their order, and for each of them a chain that starts at the first chunk of vertex 0 and by
-- which `pagerank_one_iter` visits all vertices in order; it makes no other table.
pub load_graph-IsLoaded :
    (z : Sizes) (mode : GraphMode) (m : ℕ) (es : List Gedge)
    → IsUsable z
    → IsLoadable (suc m) (λ _. []) (out_insertions mode es)
    → length (units_at m (out_insertions mode es)) ≤ z.lv1_ncnt
    → IsLoadable (suc m) (λ _. []) (in_insertions mode es)
    → length (units_at m (in_insertions mode es)) ≤ z.lv1_ncnt
    → (out : Direction) × (into : Direction) × (load_graph z mode (suc m) es ≡ some (out, into))
      × IsDirection z m (makes_out mode) (out_insertions mode es) out
      × IsDirection z m (makes_in mode) (in_insertions mode es) into
unfolding load_graph new_table
load_graph-IsLoaded z pull m es usable outs few ins few' =
    let (d, makes, built) = load_direction-IsBuilt z m (map in_insertion es) usable ins few' in
    (not_made z, d, rw (load_graph, makes) refl, refl, built)
load_graph-IsLoaded z push m es usable outs few ins few' =
    let (d, makes, built) = load_direction-IsBuilt z m (map out_insertion es) usable outs few in
    (d, not_made z, rw (load_graph, makes) refl, built, refl)
load_graph-IsLoaded z mixed m es usable outs few ins few' =
    let t = new_table z (suc m) in
    let (out, into, e, valid, valid', size, size') =
      load_both-IsTable z es (λ _. []) (λ _. []) t t usable (new_table-IsTable z (suc m))
        (new_table-IsTable z (suc m)) outs ins in
    let (d, connects, built) = connected-IsBuilt z m (map out_insertion es) out valid size few in
    let (d', connects', built') =
      connected-IsBuilt z m (map in_insertion es) into valid' size' few' in
    (d, d', rw (load_graph, e, connects', connects) refl, built, built')
