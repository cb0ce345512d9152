-- ===== src/Database.antt =====
-- database.py: the check of the schema revision that opens every transaction.
use customer_data_foundation.Prelude.{
  ℕ, ◌*◌, Option, none, some, String, str_eq, Result, err, schema_not_current, guard,
}

-- What the two queries of `require_current_schema` find: `to_regclass` answers with one row, which
-- holds NULL where the version table is missing; the version table has at most one row.
pub record Schema : Type 0 where
  pub version_table : Option (Option String)
  pub version_num : Option String

abbrev pub current_schema_revision : String
current_schema_revision = "0007_controlled_actions"

abbrev pub recovery_lease_seconds : ℕ
recovery_lease_seconds = 6 * 60

check_revision : Option String → Result (Unit {0})
check_revision none = err schema_not_current
check_revision (some version) = guard (str_eq version current_schema_revision) schema_not_current

check_relation : Option (Option String) → Option String → Result (Unit {0})
unfolding check_revision
check_relation none revision = err schema_not_current
check_relation (some none) revision = err schema_not_current
check_relation (some (some relation)) revision = check_revision revision

unfoldable pub require_current_schema : Schema → Result (Unit {0})
unfolding check_relation
require_current_schema s = check_relation s.version_table s.version_num

-- a database at the revision that the program wants, and one with no version table
abbrev pub current_schema : Schema
current_schema = record {
  version_table = some (some "alembic_version");
  version_num = some current_schema_revision;
}

abbrev pub empty_schema : Schema
empty_schema = record { version_table = some none; version_num = none }
