-- ===== src/Gateway.antt =====
-- sim/cluster/gateway_queue.go: the queue in front of the router. Bands by priority hold flows by
-- tenant, and a fairness policy chooses among the flows of a band.
mod Flows
mod Policy
mod State
mod Slots
mod Enqueue
mod Dispatch
mod Contents
mod Removal
mod Taking
mod Locating
mod Fifo
mod Picking
mod Leading
mod Priority
mod Recall
mod Searching
mod Banding
mod Adding
mod Admitting
mod Shedding
mod Tail
mod Scanned
mod Outcomes
mod Enqueuing
pub use Flows.{FlowKey, FlowEntry, FlowQueue, PriorityBand}
pub use Policy.{FairnessPolicy, global_strict, round_robin}
pub use State.{GatewayQueue, RequestLocation, Floats}
unfoldable pub use State.{new_gateway_queue, find_or_create_band}
unfoldable pub use Enqueue.{enqueue}
pub use Enqueue.{Outcome}
unfoldable pub use Dispatch.{dequeue, dequeue_gated, remove_by_request_id}
unfoldable pub use Contents.{contents, placed_flows}
pub use Contents.{Placed, IsValid, WellBand, WellFlow, ◌≤ℤ◌}
pub use Taking.{Taken}
pub use Fifo.{dequeue-fifo}
pub use Priority.{dequeue-priority, dequeue_gated-Gated, held}
pub use Recall.{remove_by_request_id-Taken}
pub use Banding.{find_or_create_band-IsValid}
pub use Adding.{Before}
pub use Admitting.{Fresh}
pub use Outcomes.{LetIn, TookPlace, TurnedAway, Enqueues}
pub use Enqueuing.{enqueue-Enqueues}
