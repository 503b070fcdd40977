-- ===== src/Topology/Tests.antt =====
-- Two nodes, and the theorem at them.
use secoli_sced.Base.{codes, ◌≡◌, refl, arith, true, [], ◌∷◌, ◌++◌, map, none, some, pos, minus_one}
use secoli_sced.Queue.Glib.{list_queue}
use secoli_sced.Queue.Holds.{holds}
use secoli_sced.Topology.{Node, Topology, node_pretty_print}
use secoli_sced.Topology.Listing.{
  announce_all, list_from, topology_announce_node-topology_list_nodes,
}

abbrev rome : Node
rome = record { address = some (codes "10.0.0.1"); port = pos 4000 }

abbrev milan : Node
milan = record { address = some (codes "10.0.0.2"); port = pos 4000 }

abbrev leader : Topology (list_queue Node)
leader = record {
  nodes = some (record { queue = []; position = minus_one });
  is_made = true;
  we_are_leader = true;
}

topology_announce_node-topology_list_nodes_example :
    list_from (list_queue Node) 3 0 (announce_all (list_queue Node) leader (rome ∷ milan ∷ []))
    ≡ map (λ m. node_pretty_print true (some m)) (rome ∷ milan ∷ []) ++ none ∷ []
topology_announce_node-topology_list_nodes_example =
    topology_announce_node-topology_list_nodes (list_queue Node) (milan ∷ []) rome leader minus_one
      refl (holds refl refl (omega arith) (omega arith)) (omega arith)
