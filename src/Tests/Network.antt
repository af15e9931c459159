-- ===== src/Tests/Network.antt =====
-- The theorems about the port allocator at concrete inputs.
use qudata_agent.Common.{refl, not, ◌≡◌, ◌==◌, arith}
use qudata_agent.Network.{
  Probe, allocate_ssh_port, allocate_from_range, scan_range, new_port_allocator, allocate_app_ports,
}
use qudata_agent.Domain.{ok}
use qudata_agent.Network.Allocate.{Allocates, allocate_from_range-Allocates}
use qudata_agent.Network.Batch.{Batch, allocate_app_ports-Batch}

abbrev probe : Probe
probe = record { draw = 7; is_port_free = λ q. not (q == 10007) }

busy_is_skipped : (allocate_ssh_port probe new_port_allocator).0 ≡ ok 10008
unfolding allocate_ssh_port allocate_from_range scan_range new_port_allocator
busy_is_skipped = refl

allocate_from_range-Allocates_example :
    Allocates 10000 10099 probe new_port_allocator
      (allocate_from_range 10000 10099 probe new_port_allocator)
allocate_from_range-Allocates_example =
    allocate_from_range-Allocates 10000 10099 probe new_port_allocator (omega arith)

allocate_app_ports-Batch_example :
    Batch 3 (λ i. probe) new_port_allocator (allocate_app_ports 3 (λ i. probe) new_port_allocator)
allocate_app_ports-Batch_example = allocate_app_ports-Batch 3 (λ i. probe) new_port_allocator
