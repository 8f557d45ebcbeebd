-- ===== src/Reading.antt =====
-- What `phongo_bson_to_zval_ex` of src/bson.c accepts, and the objects that it makes.
pub mod Intact
pub mod Values
pub mod Keeping
pub mod Ready
pub mod States
pub mod Classes
pub mod Tests
