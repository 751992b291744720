-- ===== src/Lib.antt =====
-- The searouter: routes over the ocean, on a grid graph, by hub labels over contraction hierarchies.
--
-- The server (src/main/java/de/fmi/searouter, below: the Java package) is modelled in what makes
-- hub labels and finds routes by them, which works on ints; the list of files names its classes. A
-- preprocessing contracts the graph and adds shortcuts to its edges; then LabelCreator
-- orders the nodes by falling levels, and HLDijkstra finds the labels of each node from those of its
-- higher neighbours; HubLEdges and HubLNodes hold the edges and the labels for the router, which
-- initialize and initLabelInfo lay out in flat arrays; HubLRouter merges the labels of two nodes
-- into the best common one, follows the labels' edges to it from either node, and unpacks their
-- shortcuts into the nodes of the path. The containers of the package utils carry the stacks and
-- the labels of the router. The page (vue-frontend) lets the user choose two points and shows the
-- route that the server answers.
--
-- Files:
--   Prelude      ints, arrays, exceptions, lists, and the arrays with spare cells of the containers
--   Search       java.util.Arrays.binarySearch
--   Utils        utils/IntStack, IntArrayList, IntArraySet, OrderedIntSet and DistanceHeap.java
--   Creation     hublablecreation/Edges.java, the edges and the shortcuts behind them, Nodes.java,
--                DynamicGrid.java and Labels.java; HlDijkstra is HLDijkstra.java, the labels of one
--                node, and LabelCreator is calcLabels and createHLCalcOrder of LabelCreator.java
--   LabelData    hublabeldata/HubLEdges.java and HubLNodes.java; LabelInfo is initLabelInfo,
--                and EdgeInfo is initEdgeInfo
--   Router       router/HubLRouter.java: BestLabel is the merge of two label lists, Unpack is
--                calculateRoute, TwoLabels is getEdges and route2Lbl, TempLabels is calcTempLabels
--                and addEdges, General is the router with its reset and the other routes
--   Frontend     vue-frontend/src: RoutingWindow is components/RoutingWindow.vue, with its request in
--                Request, sanitizeLongitude in Longitude and its template in View; Navbar is
--                components/Navbar.vue; Numbers and Leaflet are what the page uses of
--                JavaScript's numbers and of the map library
--   Tests        concrete runs of the theorems
--
-- An operation has the name of its Java method, in snake case, takes the state of its object and
-- returns the new one; static fields are a record, too. A call ends in a value, in an exception, or
-- out of fuel (Run). An int is the bit pattern of 32 bits (Word32, a native number below 2^32), with
-- the wrap-around of + and the signed order written out; -1 is the pattern minus_one. Ids, indices
-- and counts that the code never makes negative are plain numbers, since an array has fewer than
-- 2^31 cells; an index that the code computes as -1 or less throws, as the read does. Running out
-- of memory is not modelled.
--
-- The page is modelled as the state of its component and its handlers. An event runs a handler, and
-- then Vue calls the watchers of the points that changed. A handler that throws keeps what it did
-- before. JavaScript's numbers are doubles: their type and operations are a parameter (Numbers), and
-- so is Leaflet, whose map is seen through the layers that it shows. Their laws are hypotheses of the
-- theorems that need them; the tests satisfy them with whole numbers and a history of layers.
--
-- Loops run on fuel, and the theorems about them say which fuel is enough. The merge of two label
-- lists brings its own: one more than both ends, since each round passes a label. route_2_lbl takes
-- the fuel of all its loops as an argument: more than the labels' edges on either side, and
-- 2 * n + 2 for the n original edges that they stand for, since a stack that unpacks n edges pops
-- fewer than 2 * n times. The heap brings its own fuel, one more than the position or the size that
-- its recursion starts with. The searches for temporary labels take theirs as an argument.
-- removeRedundancies and initEdgeInfo bring one more than the number of rows or edges, since each
-- round removes one or passes one. The other loops of the preprocessing count their rounds.
--
-- calcLabels starts a thread for each range of nodes of a level. The threads write the labels of
-- different nodes and read only those of higher levels, which are finished; the model runs them one
-- after the other. An exception in a thread ends the model's run, where Java would go on without the
-- thread.
--
-- Not modelled: the server's coordinates and times, which are doubles, and with them the geometry of
-- the coastline, the grid and the nearest node; DijkstraRouter and DijkstraHeap, the router without
-- labels, and RoutingRequest, the body of a request to the server; file input and output, but for
-- the lines of initLabelInfo's temporary file; the REST layer; the contraction of the graph
-- (CHDijkstra, and calcNextLvl and calculateCH of LabelCreator), of whose result the theorems about
-- labels take what they rely on, that no edge leads to a node of the same level; Java's getters and
-- setters; the look of the page, App.vue, which only puts the bar above the window, and the bundles
-- of its build.
pub mod Prelude
pub mod Utils
pub mod Search
pub mod Creation
pub mod LabelData
pub mod Router
pub mod Frontend
mod Tests
