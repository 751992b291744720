-- ===== src/Router/TempLabels/Rows.antt =====
-- The four lists of a side as one list of rows, and what the additional info encodes.
use fapra_osm_routing.Prelude.{
  ℕ, ◌<◌, ◌≡◌, sym, ◌∙◌, subst, List, ◌∷◌, ◌++◌, map, map-append, length, length-map, Word32,
  max_value, minus_one, lt_int, true, Returns, Returns-bind, returns, arith,
}
use fapra_osm_routing.Utils.OrderedIntSet.{OrderedIntSet}
use fapra_osm_routing.Utils.OrderedIntSet.Sequence.{Holds, insert_at_idx-Holds}
use fapra_osm_routing.Router.TempLabels.{TempLabels, insert_entry, node_info, info_node}

pub record Row : Type 0 where
  pub node : Word32
  pub distance : Word32
  pub edge_id : Word32
  pub info : Word32

-- The cells at each index are the row at that index.
pub record Aligned (l : TempLabels) (rows : List Row) : Type 0 where
  pub labels : Holds l.label (map (λ r. r.node) rows)
  pub dists : Holds l.dist (map (λ r. r.distance) rows)
  pub edges : Holds l.edge (map (λ r. r.edge_id) rows)
  pub infos : Holds l.add_info (map (λ r. r.info) rows)

-- A list that a field of the rows gives, with a row in the middle.
column : (f : Row → Word32) (p q : List Row) → map f (p ++ q) ≡ map f p ++ map f q
column f p q = map-append f p q

-- Where the four lists of a side hold the columns of the rows `p` and then `q`, an entry that is
-- inserted at the length of `p` makes them hold the columns of `p`, the new row and `q`: the cells
-- at an index stay together.
pub insert_entry-Aligned :
    {l : TempLabels} (p q : List Row) (r : Row) (idx : ℕ)
    → Aligned l (p ++ q)
    → idx ≡ length p
    → Returns (λ m. Aligned m (p ++ r ∷ q)) (insert_entry l r.node r.distance r.edge_id r.info idx)
unfolding insert_entry
insert_entry-Aligned {l} p q r idx h at =
    let split = λ (s : OrderedIntSet) (f : Row → Word32) (k : Holds s (map f (p ++ q))).
      subst (Holds s) (column f p q) k in
    let joined = λ (s : OrderedIntSet) (f : Row → Word32) (k : Holds s (map f p ++ f r ∷ map f q)).
      subst (Holds s) (sym (column f p (r ∷ q))) k in
    let place = λ (f : Row → Word32). at ∙ sym (length-map f p) in
    Returns-bind
      (insert_at_idx-Holds (map (λ t. t.node) p) (map (λ t. t.node) q) r.node idx
        (split l.label (λ t. t.node) h.labels) (place (λ t. t.node)))
      λ a (ha, _).
        Returns-bind
          (insert_at_idx-Holds (map (λ t. t.distance) p) (map (λ t. t.distance) q) r.distance idx
            (split l.dist (λ t. t.distance) h.dists) (place (λ t. t.distance)))
          λ b (hb, _).
            Returns-bind
              (insert_at_idx-Holds (map (λ t. t.edge_id) p) (map (λ t. t.edge_id) q) r.edge_id idx
                (split l.edge (λ t. t.edge_id) h.edges) (place (λ t. t.edge_id)))
              λ c (hc, _).
                Returns-bind
                  (insert_at_idx-Holds (map (λ t. t.info) p) (map (λ t. t.info) q) r.info idx
                    (split l.add_info (λ t. t.info) h.infos) (place (λ t. t.info)))
                  λ d (hd, _). returns (record {
                    labels = joined a (λ t. t.node) ha;
                    dists = joined b (λ t. t.distance) hb;
                    edges = joined c (λ t. t.edge_id) hc;
                    infos = joined d (λ t. t.info) hd;
                  })

-- For a node below Integer.MAX_VALUE the additional info that encodes it is less than -1, and
-- decodes to the node again.
info_node-node_info :
    (label_node : Word32)
    → label_node < max_value
    → (lt_int (node_info label_node) minus_one ≡ true)
      × (info_node (node_info label_node) ≡ label_node)
unfolding node_info info_node
info_node-node_info label_node small = (ground arith, omega arith)
