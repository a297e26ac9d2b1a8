-- ===== src/Tests/Objects.antt =====
-- Objects, sizes, mappings.
use k_h.Base.{ℕ, ◌*◌, ◌^◌, ◌≤◌, ◌<◌, ◌≡◌, ◌≢◌, ◌⊎◌, none, arith}
use k_h.World.{null, KObjectRef, ◌>>◌}
use k_h.World.Returns.{Returns}
use k_h.KObject.{set_block, release}
use k_h.KObject.Counts.{refs}
use k_h.KObject.Lifetime.{times, with_block, counted, times-release}
use k_h.KAllocation.{next_power_of_two_size}
use k_h.KAllocation.PowerOfTwo.{next_power_of_two_size-IsLeast}
use k_h.KMapping.{new, get_buffer, get_size, get_user_data}
use k_h.KMapping.Life.{deinit_any, new-deinit}
use k_h.Tests.{generous, generous-IsLeaf, start}

three_releases :
    times 3 (release generous 1) (with_block start 1 (counted 9 3))
    ≡ (generous.deinit 9 1 >> set_block 1 none) (with_block start 1 (counted 9 0))
three_releases = times-release 1 9 (ground arith) start generous 2 (omega arith)

size_of_five :
    (k : ℕ) × (k ≤ 31) × (next_power_of_two_size 40 ≡ 2 ^ k) × (40 ≤ 2 ^ k) × (2 ^ k < 2 * 40)
size_of_five = next_power_of_two_size-IsLeast 40 (omega arith) (omega arith)

kept_alive :
    Returns
      (λ m w₁.
        (((generous.malloc start ≢ null)
            × (get_buffer m ≡ 64)
            × (get_size m ≡ 8)
            × (get_user_data m ≡ 2))
          ⊎ ((generous.malloc start ≡ null)
              × (get_buffer m ≡ null)
              × (get_size m ≡ 0)
              × (get_user_data m ≡ null)))
        × Returns (λ _ w'. (o : KObjectRef) → refs w' o ≡ refs start o) (deinit_any generous m w₁))
      (new generous 64 8 2 start)
kept_alive =
    new-deinit generous 64 8 2 start generous-IsLeaf (ground arith) (omega arith) (omega arith)
