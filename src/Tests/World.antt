-- ===== src/Tests/World.antt =====
-- A graph of the nodes 0 - 1 - 2, of which 1 was contracted first: the edges 4 and 5 are the
-- shortcuts between 0 and 2.
use fapra_osm_routing.Prelude.{ℕ, zero, suc, ◌<◌, ◌≤◌, refl, [], ◌∷◌, minus_one, max_value, arith}
use fapra_osm_routing.Utils.IntStack
use fapra_osm_routing.Utils.IntStack.Deque
use fapra_osm_routing.Creation.Edges.{Edges}
use fapra_osm_routing.Creation.Edges.Shortcuts.{Shortcut, Added, add_shortcut_edge-Added}
use fapra_osm_routing.Creation.Edges.Shortcuts
use fapra_osm_routing.LabelData.HublEdges.{
  HublEdges, get_dest, get_first_shortcut, get_second_shortcut, is_shortcut,
}
use fapra_osm_routing.LabelData.HublNodes.{HublNodes, get_label_offset, get_label_edge}
use fapra_osm_routing.Router.Unpack.{Stacks}
use fapra_osm_routing.Router.Unpack.Original.{Unpacks, original, shortcut}
use fapra_osm_routing.Router.Unpack.Route.{UnpacksAll, Held}
use fapra_osm_routing.Router.TwoLabels.Climb.{HasLabels, Climbs, top, up}
use fapra_osm_routing.Router.TwoLabels.Shortest.{Leads, node_at, dist_at}

abbrev pub to_2 : Shortcut
to_2 = record { start = 0; dest = 2; dist = 12; first = 2; second = 0 }

abbrev pub to_0 : Shortcut
to_0 = record { start = 2; dest = 0; dist = 12; first = 1; second = 3 }

-- The state before the second shortcut, with room for one more.
abbrev pub one_shortcut : Edges
one_shortcut = record {
  original_edge_start = 0 ∷ 1 ∷ 1 ∷ 2 ∷ [];
  original_edge_dest = 1 ∷ 0 ∷ 2 ∷ 1 ∷ [];
  original_edge_dist = 5 ∷ 5 ∷ 7 ∷ 7 ∷ [];
  num_of_original_edges = 4;
  shortcut_edge_start = 0 ∷ 0 ∷ [];
  shortcut_edge_dest = 2 ∷ 0 ∷ [];
  shortcut_edge_dist = 12 ∷ 0 ∷ [];
  shortcut_edge_parts = 2 ∷ 0 ∷ 0 ∷ 0 ∷ [];
  next_shortcut_id = 5;
  shortcut_edge_size_increase = 2;
}

pub one_shortcut-Holds : Shortcuts.Holds one_shortcut (to_2 ∷ [])
one_shortcut-Holds = record {
  starts = record { spare = 0 ∷ []; stored = refl; counted = refl };
  dests = record { spare = 0 ∷ []; stored = refl; counted = refl };
  dists = record { spare = 0 ∷ []; stored = refl; counted = refl };
  halves = record { spare = 0 ∷ 0 ∷ []; stored = refl; counted = refl };
  next = refl;
  same_start = refl;
  same_dest = refl;
  twice = refl;
  grows = omega arith;
  full_dest = refl;
  full_dist = refl;
}

abbrev pub edges : HublEdges
edges = record {
  dest = 1 ∷ 0 ∷ 2 ∷ 1 ∷ 2 ∷ 0 ∷ [];
  dist = 5 ∷ 5 ∷ 7 ∷ 7 ∷ 12 ∷ 12 ∷ [];
  first_shortcut_idx = 4;
  shortcut_parts = 2 ∷ 0 ∷ 1 ∷ 3 ∷ [];
}

-- The edge 4 stands for the edges 0 and 2.
pub Unpacks-4 : Unpacks edges (get_first_shortcut edges) (get_second_shortcut edges) 4 (0 ∷ 2 ∷ [])
unfolding is_shortcut get_first_shortcut get_second_shortcut
Unpacks-4 =
    shortcut 0 2 (0 ∷ []) (2 ∷ []) refl refl refl (original refl refl) (original refl refl) refl

pub all_4 :
    UnpacksAll edges (get_first_shortcut edges) (get_second_shortcut edges) (4 ∷ []) (0 ∷ 2 ∷ [])
all_4 = (0 ∷ 2 ∷ [], [], Unpacks-4, refl, refl)

abbrev pub empty_stack : IntStack.IntStack
empty_stack = record { elements = 0 ∷ []; next_idx = 0; fifo_idx = 0; size_increase = 1 }

pub empty_stack-Holds : IntStack.Deque.Holds empty_stack []
empty_stack-Holds = record {
  popped = [];
  buffer = record { spare = 0 ∷ []; stored = refl; counted = refl };
  left = refl;
  grows = omega arith;
}

abbrev pub left_4 : IntStack.IntStack
left_4 = record { elements = 4 ∷ []; next_idx = 1; fifo_idx = 0; size_increase = 1 }

abbrev pub stacks : Stacks
stacks = record {
  result_nodes = empty_stack;
  edges_left = empty_stack;
  edges_right = empty_stack;
  edge_calc_stack = empty_stack;
}

pub stacks-Held : Held stacks [] [] []
stacks-Held = record {
  on_left = empty_stack-Holds;
  on_right = empty_stack-Holds;
  on_result = empty_stack-Holds;
  on_calc = empty_stack-Holds;
}

pub stacks_4-Held : Held (record stacks { edges_left = left_4 }) (4 ∷ []) [] []
stacks_4-Held = record {
  on_left = record {
    popped = [];
    buffer = record { spare = []; stored = refl; counted = refl };
    left = refl;
    grows = omega arith;
  };
  on_right = empty_stack-Holds;
  on_result = empty_stack-Holds;
  on_calc = empty_stack-Holds;
}

abbrev pub labels : HublNodes
labels = record {
  hl_level = 0;
  levels = 1 ∷ 0 ∷ 2 ∷ [];
  edges_offset = 0 ∷ 0 ∷ 0 ∷ 0 ∷ [];
  edges = [];
  label_offset = 0 ∷ 2 ∷ 5 ∷ 6 ∷ [];
  label_node = 0 ∷ 2 ∷ 0 ∷ 1 ∷ 2 ∷ 2 ∷ minus_one ∷ [];
  label_edge = minus_one ∷ 4 ∷ 1 ∷ minus_one ∷ 2 ∷ minus_one ∷ minus_one ∷ [];
  label_dist = 0 ∷ 12 ∷ 5 ∷ 0 ∷ 7 ∷ 0 ∷ minus_one ∷ [];
}

pub strict_0 : (i j : ℕ) → 0 ≤ i → i < j → j < 2 → node_at labels i < node_at labels j
strict_0 zero (suc zero) p q r = omega arith
strict_0 i j p q r = absurd (omega arith)

pub small_node_0 : (i : ℕ) → 0 ≤ i → i < 2 → node_at labels i < max_value
small_node_0 zero p q = omega arith
small_node_0 (suc zero) p q = omega arith
small_node_0 i p q = absurd (omega arith)

pub small_dist_0 : (i : ℕ) → 0 ≤ i → i < 2 → dist_at labels i < 1073741824
small_dist_0 zero p q = omega arith
small_dist_0 (suc zero) p q = omega arith
small_dist_0 i p q = absurd (omega arith)

pub labels_0 : HasLabels labels 0 0 2
unfolding get_label_offset
labels_0 = record {
  offset = refl;
  offset_next = refl;
  order = omega arith;
  room_node = omega arith;
  room_dist = omega arith;
  strict = strict_0;
  small_node = small_node_0;
  small_dist = small_dist_0;
}

pub small_node_2 : (i : ℕ) → 5 ≤ i → i < 6 → node_at labels i < max_value
small_node_2 (suc (suc (suc (suc (suc zero))))) p q = omega arith
small_node_2 i p q = absurd (omega arith)

pub small_dist_2 : (i : ℕ) → 5 ≤ i → i < 6 → dist_at labels i < 1073741824
small_dist_2 (suc (suc (suc (suc (suc zero))))) p q = omega arith
small_dist_2 i p q = absurd (omega arith)

pub labels_2 : HasLabels labels 2 5 6
unfolding get_label_offset
labels_2 = record {
  offset = refl;
  offset_next = refl;
  order = omega arith;
  room_node = omega arith;
  room_dist = omega arith;
  strict = λ i j p q r. absurd (omega arith);
  small_node = small_node_2;
  small_dist = small_dist_2;
}

pub Climbs-4 : Climbs labels edges 2 0 (4 ∷ [])
unfolding get_label_edge get_dest
Climbs-4 =
    up 0 2 1 4 2 (λ e. absurd (omega arith)) labels_0 (omega arith) (omega arith) refl refl refl
      (top refl)

pub stays : (v : ℕ) → Leads labels edges 6 v v
stays v = record {
  label_edges = [];
  edges = [];
  climbs = top refl;
  unpacks = refl;
  known = tt;
  enough_climb = omega arith;
  enough_unpack = omega arith;
}

pub Leads-0 : (i : ℕ) → 0 ≤ i → i < 2 → Leads labels edges 6 0 (node_at labels i)
Leads-0 zero p q = stays 0
Leads-0 (suc zero) p q = record {
  label_edges = 4 ∷ [];
  edges = 0 ∷ 2 ∷ [];
  climbs = Climbs-4;
  unpacks = all_4;
  known = (omega arith, (omega arith, tt));
  enough_climb = omega arith;
  enough_unpack = omega arith;
}
Leads-0 i p q = absurd (omega arith)

pub Leads-2 : (i : ℕ) → 5 ≤ i → i < 6 → Leads labels edges 6 2 (node_at labels i)
Leads-2 (suc (suc (suc (suc (suc zero))))) p q = stays 2
Leads-2 i p q = absurd (omega arith)
