-- ===== src/Clients/Postgres/Partitions.antt =====
-- clients/database/postgres/partition.go: Client.Partition, over the database/sql package. Log lines are
-- left out. CREATE TABLE and ALTER TABLE are run on the database, and not in the transaction.
pub mod Transactions
use Prim.Native.Char.{code}
use Prim.Native.String
use kava_proxy_service.Base.{
  ℕ, String, ◌+++◌, List, [], ◌∷◌, Option, none, some, Bool, true, false, ◌==◌, ◌&&◌, ◌||◌, Result,
  ok, err, panic, Error, ℤ, if◌then◌else◌,
}
use kava_proxy_service.Exec.{Exec}
use kava_proxy_service.Clients.Postgres.Periods.{PartitionPeriod, partitions_for_period}

-- The statements that are run: on a transaction, or on the database itself. The text of an error is
-- `some`. A query gives whether it has a row.
pub record Sql (D : Type 0) : Type 0 where
  pub begin_tx : D → D × Option String
  pub tx_exec : String → D → D × Option String
  pub tx_rollback : D → D × Option String
  pub tx_commit : D → D × Option String
  pub exec : String → D → D × Option String
  pub query_has_row : String → D → D × Option Bool
  pub close_rows : D → D

pub starts_with : String → String → Bool
starts_with String.[] s = true
starts_with (String.◌∷◌ c p) String.[] = false
starts_with (String.◌∷◌ c p) (String.◌∷◌ d s) = (code c == code d) && starts_with p s

-- strings.Contains(s, part)
unfoldable pub contains_text : String → String → Bool
contains_text String.[] part = starts_with part String.[]
contains_text (String.◌∷◌ c s) part = starts_with part (String.◌∷◌ c s) || contains_text s part

-- `format_time` is a time as text, of the format 2006-01-02 15:04:05. The statements are written with
-- single spaces.
module _ {D : Type 0} (sql : Sql D) (format_time : ℕ → String) where
  unfoldable pub attach_statement : PartitionPeriod → String
  attach_statement p =
      "ALTER TABLE proxied_request_metrics ATTACH PARTITION "
      +++ (p.table_name
          +++ (" FOR VALUES FROM ('"
              +++ (format_time p.inclusive_start_period
                  +++ ("') TO ('" +++ (format_time p.exclusive_end_period +++ "');")))))

  unfoldable pub create_statement : PartitionPeriod → String
  create_statement p =
      "CREATE TABLE IF NOT EXISTS "
      +++ (p.table_name
          +++ " (LIKE proxied_request_metrics INCLUDING DEFAULTS INCLUDING CONSTRAINTS);")

  unfoldable pub attached_query : PartitionPeriod → String
  attached_query p =
      "SELECT nmsp_parent.nspname AS parent_schema, parent.relname AS parent, "
      +++ ("nmsp_child.nspname AS child_schema, child.relname AS child FROM pg_inherits "
          +++ ("JOIN pg_class parent ON pg_inherits.inhparent = parent.oid "
              +++ ("JOIN pg_class child ON pg_inherits.inhrelid = child.oid "
                  +++ ("JOIN pg_namespace nmsp_parent ON nmsp_parent.oid = parent.relnamespace "
                      +++ ("JOIN pg_namespace nmsp_child ON nmsp_child.oid = child.relnamespace "
                          +++ ("WHERE parent.relname='proxied_request_metrics' and child.relname='"
                              +++ (p.table_name +++ "';")))))))

  -- After an error the transaction is rolled back, else committed.
  abbrev pub end_tx : Option String → D → D
  end_tx (some _) d = (sql.tx_rollback d).0
  end_tx none d = (sql.tx_commit d).0

  unfoldable pub attach_partition : PartitionPeriod → D → D
  unfolding attach_statement
  attach_partition p d =
      let (attached, error) = sql.exec (attach_statement p) d in end_tx error attached

  abbrev pub after_create : PartitionPeriod → Option String → D → D
  after_create p (some _) d = (sql.tx_rollback d).0
  after_create p none d = attach_partition p d

  unfoldable pub create_partition : PartitionPeriod → D → D
  unfolding create_statement attach_partition
  create_partition p d =
      let (created, error) = sql.exec (create_statement p) d in after_create p error created

  -- A query that fails leaves the transaction open.
  abbrev pub after_query : PartitionPeriod → Option Bool → D → D
  after_query p none d = d
  after_query p (some false) d = attach_partition p d
  after_query p (some true) d = (sql.tx_commit (sql.close_rows d)).0

  unfoldable pub ensure_attached : PartitionPeriod → D → D
  unfolding attached_query attach_partition
  ensure_attached p d =
      let (queried, row) = sql.query_has_row (attached_query p) d in after_query p row queried

  abbrev pub after_select : PartitionPeriod → Option String → D → D
  after_select p none d = ensure_attached p d
  after_select p (some error) d =
      if contains_text error "42P01" then create_partition p d else (sql.tx_rollback d).0

  abbrev pub after_begin : PartitionPeriod → Option String → D → D
  after_begin p (some _) d = d
  after_begin p none d =
      let (selected, error) = sql.tx_exec ("select * from " +++ (p.table_name +++ " limit 1;")) d in
      after_select p error selected

  -- The body of the loop.
  unfoldable pub partition_one : PartitionPeriod → D → D
  unfolding ensure_attached create_partition
  partition_one p d = let (begun, error) = sql.begin_tx d in after_begin p error begun

  unfoldable pub partition_all : List PartitionPeriod → D → D
  partition_all [] d = d
  partition_all (p ∷ ps) d = partition_all ps (partition_one p d)

  abbrev pub then_partition : Result (List PartitionPeriod) → Exec D (Unit {0})
  then_partition (ok ps) d = (partition_all ps d, ok tt)
  then_partition (err e) d = (d, err e)
  then_partition panic d = (d, panic)

  -- Partition at the time `now`: the errors of the statements are only logged.
  unfoldable pub partition : (ℕ → String) → ℕ → ℤ → Exec D (Unit {0})
  unfolding partition_all
  partition print_number now days = then_partition (partitions_for_period print_number now days)
