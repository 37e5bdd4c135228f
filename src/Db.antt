-- ===== src/Db.antt =====
-- The drive database of src/db.c: its entries (db.h), the line parser, the loader and the lookup.
pub mod Memory
pub mod Line
pub mod Load
pub mod Free
pub mod Lookup
use hddtemp.Prelude.{ℕ, Bytes}

-- `struct harddrive_entry`. The links of the list are the list itself. `attribute_id` is the 16-bit
-- pattern of the `short int`.
pub record HarddriveEntry : Type 0 where
  pub regexp : Bytes
  pub attribute_id : ℕ
  pub description : Bytes
  pub unit : ℕ
