-- ===== src/Lib.antt =====
-- The MongoDB driver for PHP, version 1.2.4: conversion between PHP values and BSON, bulk writes and
-- queries, as the C code of mongodb-1.2.4/ does them on PHP 7 and a 64-bit platform.
--
-- The extension stands between the PHP engine and two libraries that are bundled with it, libbson and
-- libmongoc. A user's PHP value goes through `phongo_zval_to_bson` (mongodb-1.2.4/src/bson.c) into a
-- document of libbson; documents of the server come back through `phongo_bson_to_zval_ex`, under a
-- type map that says which PHP types they become. A BulkWrite and a Query
-- (mongodb-1.2.4/src/MongoDB/) convert their arguments with the first and hand them, with their
-- options, to libmongoc; `phongo_execute_write` (mongodb-1.2.4/php_phongo.c) runs a BulkWrite once.
--
-- Where things are:
--   Prelude: names of the libraries, Boolean tests, signed integers, texts as lists of bytes. Double:
--     the arithmetic of C on `double`, rounded to 53 bits, as far as UtcDateTime computes with it.
--   Errors: php_phongo.c, exception classes; the exceptions that a call has thrown are a list.
--   Bson: a document as the sequence of its elements, with what ends it. Php: `zval`, `HashTable`,
--     `zend_class_entry`, and the record Env of the functions of the engine and of libbson that the
--     conversions call. Php/Hash: ordered hash tables.
--   Encode: `phongo_zval_to_bson`, `phongo_bson_append`, `object_to_bson`, `fromPHP`. Writing: its
--     theorems.
--   TypeMap: `phongo_bson_typemap_to_state`. Decode: the visitors, `phongo_bson_to_zval_ex`, `toPHP`.
--     Reading: their theorems. RoundTrip: both directions together.
--   Regex, Timestamp, UtcDateTime, ObjectId, Binary: src/BSON/Regex.c, src/BSON/Timestamp.c,
--     src/BSON/UTCDateTime.c, src/BSON/ObjectID.c and src/BSON/Binary.c.
--   Mongoc: what is asked of libmongoc, as a record of its answers. Options: the option macros of
--     BulkWrite.c and Query.c. BulkWrite and Query: the two classes.
--   Cursor: src/MongoDB/Cursor.c, over a cursor of libmongoc that is a parameter; Cursor/Contents: what
--     such a cursor yields, as a list. Execute: `phongo_execute_query` and `phongo_execute_command`.
--   WriteResult: src/MongoDB/WriteResult.c, over the reply of libmongoc to a bulk operation, and the
--     objects that php_phongo.c makes of its errors.
--   ReadPreference, WriteConcern, ReadConcern: the classes of src/MongoDB and, in their Uri modules,
--     the functions of php_phongo.c that apply the options of a Manager; Uri: what these share.
--   Manager: src/MongoDB/Manager.c and `phongo_manager_init`, with the clients that the process keeps.
--   Samples: a concrete environment for the tests.
--
-- The state of each object is a record with the fields of its C struct; a function of C that changes
-- it returns the new record and the exceptions. A message keeps its format only. A conversion to BSON
-- returns the elements that it appended, since libbson appends at the end of a document.
--
-- Recursion on values of PHP and on documents is structural: they are finite trees. The loop over a
-- cursor runs on fuel, since a cursor of libmongoc need not end; more fuel than it has documents is
-- enough. A table that contains itself, against which the code counts applications, is not a value
-- here.
--
-- Bounds: a long has 64 bits, `append_int` writes 32 bits where the value fits, and `neg_long` keeps
-- the least integer as two's complement does; the product and the sum that give the milliseconds of a
-- UTCDateTime wrap around at 64 bits, and a Binary keeps the low 8 bits of its type.
-- The fractions of a second are doubles, computed exactly and rounded to the nearest. The cursors of
-- libmongoc that an execution makes have numbers, and a list of those that are not destroyed.
--
-- Not modelled: libbson, libmongoc, yajl and src/contrib (copies of other projects, whose functions are
-- parameters), registration of classes and the module's start, debug information, branches for PHP 5
-- and 32 bits; and so far JavaScript and Decimal128, the engine's serializer, the
-- Server, the getters of the error classes, and the JSON functions.
pub mod Prelude
pub mod Errors
pub mod Bson
pub mod Php
pub mod Encode
pub mod TypeMap
pub mod Regex
pub mod Decode
pub mod RoundTrip
pub mod Samples
pub mod Reading
pub mod Writing
pub mod Mongoc
pub mod Options
pub mod BulkWrite
pub mod Query
pub mod Timestamp
pub mod Cursor
pub mod Execute
pub mod Uri
pub mod ReadPreference
pub mod WriteConcern
pub mod ReadConcern
pub mod Manager
pub mod UtcDateTime
pub mod ObjectId
pub mod Binary
pub mod WriteResult
pub mod Double
