-- ===== src/Topology.antt =====
-- src/topology.c and src/node.c: the nodes that have announced themselves, and their list.
pub mod Listing
mod Tests
use secoli_sced.Base.{
  Bytes, codes, Bool, true, false, not, ◌++◌, Option, none, some, if◌then◌else◌, ℤ, pos, minus_one,
  eqb_ℤ,
}
use secoli_sced.Clib.{atoi, decimal_int, snprintf}
use secoli_sced.Queue.Glib.{GQueue}
use secoli_sced.Queue.{
  Queue, xmalloc, queue_create, queue_push, queue_get_first, queue_get_next, queue_get_length,
}

pub record Node : Type 0 where
  pub address : Option Bytes
  pub port : ℤ

unfoldable pub node_assemble : Bool → Bytes → Bytes → Option Node
node_assemble memory address port =
    xmalloc memory (record { address = some address; port = atoi port })

-- The flag is what xmalloc finds for the buffer of 32 bytes.
unfoldable pub node_pretty_print : Bool → Option Node → Option Bytes
node_pretty_print memory none = none
node_pretty_print memory (some node) = elim node.address [
  | none ↦ none
  | some address ↦
      if memory then some (snprintf 32 (address ++ (codes ":" ++ decimal_int node.port))) else none
]

module _ (G : GQueue Node) where
  -- The static variables; `nodes` is the queue of the topology.
  pub record Topology : Type 0 where
    pub nodes : Option (Queue G)
    pub is_made : Bool
    pub we_are_leader : Bool

  -- The flags say whether xmalloc and `queue_create` find memory.
  unfoldable pub topology_init : Bool → Bool → Topology → Bool × Topology
  topology_init memory queue_memory t =
      if not memory
      then (false, record t { is_made = false })
      else elim (queue_create G queue_memory) [
        | none ↦ (false, record t { is_made = true; nodes = none })
        | some q ↦ (true, record t { is_made = true; nodes = some q; we_are_leader = true })
      ]

  -- Once this program is the leader the topology has been made: `topology->nodes` is no fault.
  unfoldable pub topology_announce_node : Topology → Option Node → Bool × Topology
  topology_announce_node t none = (false, t)
  topology_announce_node t (some node) =
      if not t.we_are_leader
      then (false, t)
      else (true, record t { nodes = (queue_push G t.nodes (some node)).1 })

  unfoldable pub topology_leader : Topology → Bool
  topology_leader t = t.we_are_leader

  unfoldable pub topology_count_nodes : Topology → ℤ
  topology_count_nodes t = if not t.we_are_leader then minus_one else queue_get_length G t.nodes

  unfoldable pub topology_list_nodes : Bool → Topology → ℤ → Option Bytes × Topology
  topology_list_nodes memory t index =
      let (node, q) =
        if eqb_ℤ index (pos 0) then queue_get_first G t.nodes else queue_get_next G t.nodes in
      if not t.we_are_leader
      then (none, t)
      else (node_pretty_print memory node, record t { nodes = q })
