-- ===== src/Scenarios.antt =====
-- Data for the tests and the witnesses: a graph of one channel, `lines`, that carries the segments of
-- `read` to `count`.
pub mod Delivering
pub mod Serving
pub mod Progressing
pub mod Storing
pub mod Controlling
pub mod Conversing
pub mod Restoring
use stark8s.Prelude.{ℕ, pos, false, none, [], ◌∷◌}
use stark8s.Graph.{ChannelSpec, PartitioningMode, Delivery, Durability, CombineMode}
use stark8s.Coordinator.Api.{SegmentAnnouncement, SegmentAck, PodRegistration, TaskId}
use stark8s.Coordinator.State.{Pod, Operation, Segment, Channel, Coordinator}
use stark8s.Coordinator.Pods.{new_operation}
use stark8s.Coordinator.Topology.{new_coordinator, new_channel, blank_segment}
use stark8s.Coordinator.Segments.{index_segment}

abbrev pub lines : ChannelSpec
lines = record {
  name = "lines";
  from = "read";
  to = "count";
  partitioning = record { mode = PartitioningMode.hash; partitions = pos 2 };
  delivery = Delivery.pipelined;
  durability = Durability.ephemeral;
  combine = CombineMode.unset;
  feedback = none;
}

abbrev pub pod_a : PodRegistration
pod_a = record { operation = "count"; pod = "a"; incarnation = "i1"; addr = "a:1"; slots = pos 1 }

abbrev pub pod_a_again : PodRegistration
pod_a_again = record pod_a { incarnation = "i2" }

abbrev pub no_task : TaskId
no_task = record { channel = ""; partition = pos 0; epoch = pos 0; attempt = pos 0 }

abbrev pub first_announcement : SegmentAnnouncement
first_announcement = record {
  id = "s1";
  append_id = "";
  channel = "lines";
  partition = pos 1;
  epoch = pos 0;
  records = 3;
  bytes = 30;
  holder = "r:1";
  producer = "r";
  durable = false;
  task = no_task;
  overflowed = 0;
}

abbrev pub first_ack : SegmentAck
first_ack = record {
  id = "s1";
  append_id = "";
  holder = "r:1";
  pod = "a";
  failure = "";
  retry_after_millis = pos 0;
}

abbrev pub first_segment : Segment
first_segment = record blank_segment {
  id = "s1";
  holder = "r:1";
  producer = "r";
  op = "read";
  channel = "lines";
  part = pos 1;
  records = 3;
  bytes = 30;
}

-- The channel before and after its first segment.
abbrev pub empty_lines : Channel
empty_lines = new_channel lines

abbrev pub one_line : Channel
one_line = index_segment empty_lines first_segment

abbrev pub started : Coordinator
started = new_coordinator "c:1" 100

abbrev pub live_pod : Pod
live_pod = record {
  name = "a";
  op = "count";
  addr = "a:1";
  slots = pos 1;
  last_seen = 100;
  done = false;
  incarnation = "i1";
  cohort_slot = 0;
}

abbrev pub counting : Operation
counting = record new_operation {
  pods = ("a", live_pod) ∷ [];
  replicas = pos 1;
  epoch_done = ("a", pos 0) ∷ [];
  next_cohort_slot = 1;
}

-- One pod of `count` is registered, and the channel is empty.
abbrev pub running : Coordinator
running = record started { ops = ("count", counting) ∷ []; channels = ("lines", empty_lines) ∷ [] }
