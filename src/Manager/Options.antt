-- ===== src/Manager/Options.antt =====
-- src/MongoDB/Manager.c: what the constructor makes of its arrays of options.
use dotdeb_php_mongodb.Prelude.{
  Bytes, codes, case_eq, List, [], ◌∷◌, Option, none, some, if◌then◌else◌,
}
use dotdeb_php_mongodb.Errors.{Fault, invalid_argument, throw}
use dotdeb_php_mongodb.Php.{index, name, Zval, Table, empty, entry}
use dotdeb_php_mongodb.Php.Hash.{find, delete, ◌⧺◌}
use dotdeb_php_mongodb.ReadPreference.{prep_tagsets}

-- `php_phongo_read_preference_prep_tagsets` on a value that may be a reference.
unfoldable pub prep_value : Zval → Zval
unfolding prep_tagsets
prep_value (Zval.array t) = Zval.array (prep_tagsets t)
prep_value (Zval.reference (Zval.array t)) = Zval.reference (Zval.array (prep_tagsets t))
prep_value z = z

-- `php_phongo_manager_prep_tagsets`: the tag sets under the key, in any case.
unfoldable pub prep_option_tagsets : Table → Table
unfolding case_eq prep_value
prep_option_tagsets empty = empty
prep_option_tagsets (entry (index i) z t) = entry (index i) z (prep_option_tagsets t)
prep_option_tagsets (entry (name s) z t) =
    entry (name s) (if case_eq s (codes "readpreferencetags") then prep_value z else z)
      (prep_option_tagsets t)

-- `zend_hash_merge` with no overwriting: the entries of the second array whose keys are new.
unfoldable pub merge : Table → Table → Table
unfolding find ◌⧺◌
merge t empty = t
merge t (entry k z u) = merge (elim (find t k) [ some w ↦ t | none ↦ t ⧺ entry k z empty ]) u

-- `php_array_fetchc_array`.
unfoldable pub fetch_array : Table → Bytes → Option Table
unfolding find
fetch_array t key = elim (find t (name key)) [
  | some (Zval.array u) ↦ some u
  | some (Zval.reference (Zval.array u)) ↦ some u
  | _ ↦ none
]

-- `php_phongo_manager_merge_context_options`: the driver's options, or nothing with an exception.
unfoldable pub merge_context_options : (Zval → Option Table) → Table → Option Table × List Fault
unfolding find fetch_array merge delete
merge_context_options stream_context driver_options =
    elim (find driver_options (name (codes "context"))) [
      | none ↦ (some driver_options, [])
      | some zcontext ↦ elim (stream_context zcontext) [
        | none ↦ (
          none,
          throw invalid_argument "\"context\" driver option is not a valid Stream-Context resource"
              ∷ [],
        )
        | some context ↦ elim (fetch_array context (codes "ssl")) [
          | none ↦ (
            none,
            throw invalid_argument "Stream-Context resource does not contain \"ssl\" options array"
                ∷ [],
          )
          | some ssl ↦ (some (delete (merge driver_options ssl) (name (codes "context"))), [])
        ]
      ]
    ]
