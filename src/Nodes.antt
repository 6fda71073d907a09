-- ===== src/Nodes.antt =====
-- The bookkeeping that the map-and-list caches of the repository share: a Go map from keys to nodes
-- beside an intrusive list of nodes. A node is its address; `&node{key: k}` takes the next address.
-- The components are sim/prefix_cache_index.go, sim/lora/resident_set.go and
-- sim/kv/offload_cputier.go.
mod Defs
mod Counting
mod Tracking
mod Creating
mod Naming
pub use Defs.{Nodes}
unfoldable pub use Defs.{no_nodes, new_node, forget, push_front, push_back, detach}
pub use Counting.*
pub use Tracking.*
pub use Creating.*
pub use Naming.{
  names, but_last-snoc, map-snoc, length-map, names-new_node, key_of-new_node, names-remove,
  holds-names, not_holds-names,
}
unfoldable pub use Naming.{holds, without, but_last}
