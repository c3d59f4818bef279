-- ===== src/Types.antt =====
-- The data types of salt/src/types.rs: storage keys, encoded values, bucket metadata, node ids.
pub mod SaltKey
pub mod SaltValue
pub mod BucketMeta
pub mod Errors
pub mod NodeId
pub mod Packing
pub mod RoundTrip
