-- ===== src/Mapping/Table.antt =====
-- abtst_mapping and abtst_mappings (include/mapping.h).
use abtst.Common.{ℕ, Option}
use abtst.Common.Int.{ℤ}
use abtst.Common.Store.{Array}
use abtst.Load.Init.{Loads}
use abtst.Mapping.{HashInfo}

-- `other` is any number that the switch has no case for.
pub data MappingType : Type 0 where
  hashing : MappingType
  random : MappingType
  other : MappingType

-- What the function pointers `init_mapping` and `mapping_to_load` point to.
pub data Scheme : Type 0 where
  by_hash : Scheme
  by_random : Scheme

-- `none` in place of a pointer is NULL.
pub record Mapping : Type 0 where
  pub mapping_id : ℤ
  pub partition_id : ℕ
  pub type : MappingType
  pub param : Option HashInfo
  pub scheme : Option Scheme
  pub loads : Loads

pub record Mappings : Type 0 where
  pub nr_mappings : ℕ
  pub mappings : Array Mapping
