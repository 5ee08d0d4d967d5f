-- ===== src/Http/Charges.antt =====
-- What a request costs the caller (`ChargingPolicyWithCollateral` of `src/http.rs`).
use evm_rpc_canister.Prelude.{ℕ, zero, suc, ◌+◌, ◌*◌, ◌≤◌, ◌<◌, ◌≡◌, true, arith, if◌then◌else◌}
use evm_rpc_canister.Memory.{Externals, State}
use evm_rpc_canister.Http.{charging_policy_new, charging_policy_default, cycles_to_charge, u128_max}

module _ {X : Externals} where
  -- A request costs nothing in demo mode. Otherwise, with a number of nodes that a `u32` holds and
  -- at most 10 ^ 38 attached cycles, the charge is exactly the attached cycles and 10,000,000 for
  -- each node, without saturation.
  pub cycles_to_charge-default :
      (s : State X) (attached_cycles : ℕ)
      → s.num_subnet_nodes < 4294967296
      → attached_cycles ≤ 100000000000000000000000000000000000000
      → cycles_to_charge (charging_policy_default s) attached_cycles
        ≡ (if s.is_demo_active then 0 else attached_cycles + 10_000_000 * s.num_subnet_nodes)
  unfolding cycles_to_charge charging_policy_default charging_policy_new
  cycles_to_charge-default s attached_cycles h k = ground arith

mul_mono : (p n m : ℕ) → n ≤ m → p * n ≤ p * m
mul_mono zero n m h = omega arith
mul_mono (suc p) n m h = omega (arith, mul_mono p n m h)

-- Whatever the number of nodes, the collateral for a node and the attached cycles are, a charged
-- request is charged at least the attached cycles, as far as a `u128` holds them, never more than
-- a `u128` holds, and no less if the subnet has more nodes.
pub cycles_to_charge-bounds :
    (nodes more per_node attached_cycles : ℕ)
    → attached_cycles ≤ u128_max
    → nodes ≤ more
    → (attached_cycles ≤ cycles_to_charge (charging_policy_new nodes true per_node) attached_cycles)
      × (cycles_to_charge (charging_policy_new more true per_node) attached_cycles ≤ u128_max)
      × (cycles_to_charge (charging_policy_new nodes true per_node) attached_cycles
          ≤ cycles_to_charge (charging_policy_new more true per_node) attached_cycles)
unfolding cycles_to_charge charging_policy_new
cycles_to_charge-bounds nodes more per_node attached_cycles h k =
    (ground arith, ground arith, ground (arith, mul_mono per_node nodes more k))
