-- ===== src/Placement.antt =====
-- sim/cluster/infra_node.go and sim/cluster/infra_placement.go: nodes with their GPUs, and the
-- manager that places instances on them.
mod Nodes
mod Manager
mod Lifecycle
mod Gpus
mod Armed
mod Keeping
mod Reaching
mod Undoing
pub use Nodes.{NodeState, provisioning, ready, draining, terminated, Gpu, Node}
pub use Manager.{
  NodePoolConfig, PlacementManager, Placed, PlaceError, PlaceOutcome, bad_degree, unsatisfiable,
  no_capacity, placed, refused,
}
unfoldable pub use Manager.{place_instance}
unfoldable pub use Lifecycle.{
  any_holds, release_instance, drain_node, mark_node_terminated, mark_node_ready,
  verify_conservation,
}
unfoldable pub use Armed.{IsGood}
pub use Reaching.{
  Step, Steps, placing, releasing, draining_node, terminating, readying, stay, step, steps-IsGood,
}
unfoldable pub use Undoing.{IsUndone}
pub use Undoing.{place_instance-IsUndone}
