-- ===== src/RoundTrip.antt =====
-- src/bson.c in both directions: what `fromPHP` writes, `toPHP` reads back.
mod Plain
mod Encoding
mod Reads
mod Children
mod Decoding
mod Arrays
mod Tests
