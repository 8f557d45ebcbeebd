-- ===== src/Errors.antt =====
-- php_phongo.c, "Error reporting and logging": which exception class an error becomes, and the
-- exceptions that a call has thrown.
use dotdeb_php_mongodb.Prelude.{
  ℕ, String, Bytes, List, [], ◌∷◌, ◌||◌, Bool, true, false, ◌==◌, if◌then◌else◌,
}

-- The classes of MongoDB\Driver\Exception, and the class of an exception that user code throws.
pub data ExceptionClass : Type 0 where
  invalid_argument_exception logic_exception runtime_exception : ExceptionClass
  unexpected_value_exception bulk_write_exception connection_exception : ExceptionClass
  connection_timeout_exception execution_timeout_exception authentication_exception : ExceptionClass
  user_exception : Bytes → ExceptionClass

-- `php_phongo_error_domain_t`; `unknown` is any value that the enum does not name.
pub data PhongoDomain : Type 0 where
  invalid_argument runtime unexpected_value mongoc_failed write_failed : PhongoDomain
  connection_failed logic unknown : PhongoDomain

unfoldable pub exception_from_phongo_domain : PhongoDomain → ExceptionClass
exception_from_phongo_domain invalid_argument = invalid_argument_exception
exception_from_phongo_domain logic = logic_exception
exception_from_phongo_domain runtime = runtime_exception
exception_from_phongo_domain unexpected_value = unexpected_value_exception
exception_from_phongo_domain mongoc_failed = runtime_exception
exception_from_phongo_domain write_failed = bulk_write_exception
exception_from_phongo_domain connection_failed = connection_exception
exception_from_phongo_domain unknown = runtime_exception

-- `MONGOC_ERROR_STREAM_SOCKET` or `MONGOC_ERROR_SERVER_SELECTION_FAILURE`.
abbrev is_timeout_code : ℕ → Bool
is_timeout_code code = (code == 4) || (code == 13053)

-- `MONGOC_ERROR_STREAM_INVALID_TYPE`, `_INVALID_STATE`, `_NAME_RESOLUTION`, `_CONNECT` and
-- `_NOT_ESTABLISHED`.
abbrev is_connection_code : ℕ → Bool
is_connection_code code = (code == 1) || (code == 2) || (code == 3) || (code == 5) || (code == 6)

-- The domain decides nothing: each label of the second `switch`, and its default, is the class that
-- the last labels of the first one name.
unfoldable pub exception_from_mongoc_domain : ℕ → ℕ → ExceptionClass
exception_from_mongoc_domain domain code =
    if code == 50
    then execution_timeout_exception
    else if is_timeout_code code
    then connection_timeout_exception
    else if code == 11
    then authentication_exception
    else if is_connection_code code
    then connection_exception
    else runtime_exception

-- An exception: its class, and the format of its message.
pub record Fault : Type 0 where
  pub class : ExceptionClass
  pub message : String

-- `bson_error_t`.
pub record BsonError : Type 0 where
  pub domain : ℕ
  pub code : ℕ
  pub message : String

-- `phongo_throw_exception`: the exceptions that a call throws are listed in order, and
-- `EG(exception)` is set when the list is not empty.
unfoldable pub throw : PhongoDomain → String → Fault
unfolding exception_from_phongo_domain
throw domain message = record { class = exception_from_phongo_domain domain; message = message }

-- `phongo_throw_exception_from_bson_error_t`.
unfoldable pub throw_from_bson_error : BsonError → Fault
unfolding exception_from_mongoc_domain
throw_from_bson_error e = record {
  class = exception_from_mongoc_domain e.domain e.code;
  message = e.message;
}

-- `EG(exception)`.
abbrev pub is_pending : List Fault → Bool
is_pending [] = false
is_pending (f ∷ fs) = true
