-- ===== src/Safeloader/Layout.antt =====
-- The data of tools/tplink-safeloader/tplink-safeloader.c: `image_partition_entry`,
-- `flash_partition_entry` and `device_info`. A `const char *` that may be NULL is an option; an
-- array that a NULL name ends is the list of its entries, the ending one included. The field
-- `content` is the source's `data`.
use Prim.Native.String.{String}
use safewrt.Common.{ℕ, Option, none, some, List, [], ◌∷◌, ◌++◌, Bytes}
use safewrt.Common.Text.{codes}

-- An image partition table entry
pub record ImagePartition : Type 0 where
  pub name : Option Bytes
  pub size : ℕ
  pub content : Bytes

-- A flash partition table entry
pub record FlashPartition : Type 0 where
  pub name : Option Bytes
  pub base : ℕ
  pub size : ℕ

-- Firmware layout description
pub record DeviceInfo : Type 0 where
  pub id : Option Bytes
  pub vendor : Option Bytes
  pub support_list : Option Bytes
  pub support_trail : ℕ
  pub soft_ver : Option Bytes
  pub partitions : List FlashPartition
  pub first_sysupgrade_partition : Option Bytes
  pub last_sysupgrade_partition : Option Bytes

-- One row of a layout table, and the row that ends it.
abbrev pub row : String → ℕ → ℕ → FlashPartition
row name base size = record { name = some (codes name); base = base; size = size }

abbrev pub last_row : FlashPartition
last_row = record { name = none; base = 0; size = 0 }

-- Adjacent string literals.
abbrev pub adjacent : List String → Bytes
adjacent [] = []
adjacent (s ∷ ss) = codes s ++ adjacent ss

-- `struct image_partition_entry parts[9] = {}`: an entry that was never set.
abbrev pub no_partition : ImagePartition
no_partition = record { name = none; size = 0; content = [] }

-- A row of the flash layout.
pub record Slot : Type 0 where
  pub label : Bytes
  pub base : ℕ
  pub size : ℕ

abbrev pub flash_row : Slot → FlashPartition
flash_row r = record { name = some r.label; base = r.base; size = r.size }

-- A table that begins with these rows.
abbrev pub flash_array : List Slot → List FlashPartition → List FlashPartition
flash_array [] more = more
flash_array (r ∷ rs) more = flash_row r ∷ flash_array rs more
