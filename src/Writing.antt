-- ===== src/Writing.antt =====
-- What `phongo_zval_to_bson` of src/bson.c writes: `_id` elements, and documents that libbson takes.
pub mod Ids
pub mod Sound
pub mod Complete
pub mod Pclass
pub mod Tests
