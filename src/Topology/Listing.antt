-- ===== src/Topology/Listing.antt =====
-- The list of the nodes.
use secoli_sced.Base.{
  Bytes, ℕ, zero, suc, ◌+◌, ◌<◌, ◌≡◌, ap, ◌∙◌, true, List, [], ◌∷◌, ◌++◌, map, Option, none, some,
  arith, length, length-append, int_limit, ℤ, pos,
}
use mathlib.Core.Path.{ap₂}
use mathlib.Core.List.{append-nil, append_assoc}
use secoli_sced.Queue.Ends.{queue_push-Holds}
use secoli_sced.Queue.Glib.{GQueue}
use secoli_sced.Queue.Holds.{Holds, queue_get_first-Holds}
use secoli_sced.Queue.Walk.{next_node, past_last}
use secoli_sced.Queue.{queue_push, queue_get_next, queue_get_first}
use secoli_sced.Topology.{
  Node, Topology, node_pretty_print, topology_announce_node, topology_list_nodes,
}

module _ (G : GQueue Node) where
  unfoldable pub announce_all : Topology G → List Node → Topology G
  announce_all t [] = t
  announce_all t (n ∷ ns) = announce_all (topology_announce_node G t (some n)).1 ns

  announce :
      (t : Topology G) (m : Node)
      → t.we_are_leader ≡ true
      → (topology_announce_node G t (some m)).1
        ≡ record t { nodes = (queue_push G t.nodes (some m)).1 }
  unfolding topology_announce_node
  announce t m leader = ground arith

  -- The announcements are accepted, and the nodes stand behind the others.
  announce_all-Holds :
      (ms : List Node) (xs : List Node) (n : ℕ) (t : Topology G)
      → t.we_are_leader ≡ true
      → Holds G xs (pos n) t.nodes
      → length xs + length ms < int_limit
      → ((announce_all t ms).we_are_leader ≡ true)
        × (k : ℕ) × Holds G (xs ++ ms) (pos k) (announce_all t ms).nodes
  unfolding announce_all
  announce_all-Holds [] xs n t leader h l = (leader, n, rw append-nil h)
  announce_all-Holds (m ∷ ms) xs n t leader h l =
      let (s, h') = queue_push-Holds G m h (omega arith) in
      let t' = record t { nodes = (queue_push G t.nodes (some m)).1 } in
      let (leader', k, h2) =
        announce_all-Holds ms (xs ++ m ∷ []) (length xs) t' leader h'
          (omega (arith, length-append xs (m ∷ []))) in
      rw (announce t m leader, announce_all) (leader', k, rw (append_assoc xs (m ∷ []) ms) at h2)

  -- What the next `fuel` calls of `topology_list_nodes` give, from the given index on.
  unfoldable pub list_from : ℕ → ℕ → Topology G → List (Option Bytes)
  list_from zero index t = []
  list_from (suc fuel) index t =
      (topology_list_nodes G true t (pos index)).0
      ∷ list_from fuel (suc index) (topology_list_nodes G true t (pos index)).1

  list_next :
      (t : Topology G) (index : ℕ)
      → t.we_are_leader ≡ true
      → topology_list_nodes G true t (pos (suc index)) ≡ (
        node_pretty_print true (queue_get_next G t.nodes).0,
        record t { nodes = (queue_get_next G t.nodes).1 },
      )
  unfolding topology_list_nodes
  list_next t index leader = ground arith

  list_first :
      (t : Topology G)
      → t.we_are_leader ≡ true
      → topology_list_nodes G true t (pos 0) ≡ (
        node_pretty_print true (queue_get_first G t.nodes).0,
        record t { nodes = (queue_get_first G t.nodes).1 },
      )
  unfolding topology_list_nodes
  list_first t leader = ground arith

  -- The cursor is on `y`, which has just been listed.
  list_rest :
      (ys : List Node) (xs : List Node) (y : Node) (index : ℕ) (t : Topology G)
      → t.we_are_leader ≡ true
      → Holds G (xs ++ y ∷ ys) (pos (length xs)) t.nodes
      → list_from (suc (length ys)) (suc index) t
        ≡ map (λ n. node_pretty_print true (some n)) ys ++ none ∷ []
  unfolding list_from node_pretty_print
  list_rest [] xs y index t leader h =
      ap (λ r. r.0 ∷ []) (list_next t index leader)
      ∙ ap (λ r. node_pretty_print true r.0 ∷ []) (past_last G xs y h)
  list_rest (z ∷ zs) xs y index t leader h =
      let (v, h') = next_node G xs y z zs h in
      let t' = record t { nodes = (queue_get_next G t.nodes).1 } in
      ap (λ r. r.0 ∷ list_from (suc (length zs)) (suc (suc index)) r.1) (list_next t index leader)
      ∙ ap₂ ◌∷◌ (ap (node_pretty_print true) v)
          (list_rest zs (xs ++ y ∷ []) z (suc index) t' leader h')

  -- On the leader, with at least one node announced, as many calls of `topology_list_nodes` as
  -- there are nodes, and one more, with the indices from 0 on, give each node's text in the order
  -- of announcement, and then NULL.
  pub topology_announce_node-topology_list_nodes :
      (ns : List Node) (n : Node) (t : Topology G) (p : ℤ)
      → t.we_are_leader ≡ true
      → Holds G [] p t.nodes
      → suc (length ns) < int_limit
      → list_from (suc (suc (length ns))) 0 (announce_all t (n ∷ ns))
        ≡ map (λ m. node_pretty_print true (some m)) (n ∷ ns) ++ none ∷ []
  unfolding announce_all list_from
  topology_announce_node-topology_list_nodes ns n t p leader h l =
      let (s, h') = queue_push-Holds G n h (omega arith) in
      let t' = record t { nodes = (queue_push G t.nodes (some n)).1 } in
      let (leader', k, h2) = announce_all-Holds ns (n ∷ []) 0 t' leader h' (omega arith) in
      let (v, h3) = queue_get_first-Holds G h2 in
      let u = announce_all t' ns in
      let u' = record u { nodes = (queue_get_first G u.nodes).1 } in
      ap (λ s. list_from (suc (suc (length ns))) 0 (announce_all s ns)) (announce t n leader)
      ∙ ap (λ r. r.0 ∷ list_from (suc (length ns)) 1 r.1) (list_first u leader')
      ∙ ap₂ ◌∷◌ (ap (node_pretty_print true) v) (list_rest ns [] n 0 u' leader' h3)
