-- ===== src/Storage/Tablet.antt =====
-- src/storage/tablet.rs: the regions of a tablet in 1024 slots, over a type of regions and of memory
-- tiers. The lock of the regions is held by one caller at a time.
pub mod Slots
use tensorvault.Prelude.{
  ℕ, suc, ◌*◌, ltb, if◌then◌else◌, Option, none, some, List, [], ◌∷◌, get_elem?, set, replicate,
}

abbrev pub region_size : ℕ
region_size = 2 * 1024 * 1024

abbrev pub tablet_regions : ℕ
tablet_regions = 1024

pub record Tablet (Region Tier : Type 0) : Type 0 where
  pub id : ℕ
  pub regions : List (Option Region)
  pub tier : Tier
  pub numa_node : Option ℕ

-- `.get(slot).cloned().flatten()`
abbrev pub flatten : {A : Type 0} → Option (Option A) → Option A
flatten none = none
flatten (some a) = a

-- The slots that hold a region
unfoldable pub filled : {A : Type 0} → List (Option A) → ℕ
filled [] = 0
filled (none ∷ slots) = filled slots
filled (some a ∷ slots) = suc (filled slots)

module _ {Region Tier : Type 0} where
  unfoldable pub new : ℕ → Tier → Tablet Region Tier
  new id tier = record {
    id = id;
    regions = replicate tablet_regions none;
    tier = tier;
    numa_node = none;
  }

  unfoldable pub put_region : ℕ → Region → Tablet Region Tier → Tablet Region Tier
  put_region slot region t =
      if ltb slot tablet_regions then record t { regions = set t.regions slot (some region) } else t

  unfoldable pub get_region : ℕ → Tablet Region Tier → Option Region
  get_region slot t = flatten (get_elem? t.regions slot)

  unfoldable pub filled_count : Tablet Region Tier → ℕ
  filled_count t = filled t.regions

  unfoldable pub bytes_used : Tablet Region Tier → ℕ
  unfolding filled_count
  bytes_used t = filled_count t * region_size
