-- ===== src/Clients/Postgres/Partitions/Transactions.antt =====
-- The transactions of Partition, and its error.
use kava_proxy_service.Base.{
  ℕ, suc, ◌+◌, ◌-◌, ◌≤◌, String, ◌+++◌, List, [], ◌∷◌, Option, none, some, Bool, true, false,
  Bool-cases, inl, inr, Result, ok, err, panic, ℤ, lt_ℤ, pos, if◌then◌else◌, ◌≡◌, ◌↔◌, refl, arith,
}
use kava_proxy_service.Clients.Postgres.Periods.{PartitionPeriod, partitions_for_period}
use kava_proxy_service.Clients.Postgres.Partitions.{
  Sql, contains_text, attach_statement, create_statement, attached_query, end_tx, attach_partition,
  after_create, create_partition, after_query, ensure_attached, after_select, after_begin,
  partition_one, partition_all, then_partition, partition,
}

-- What database/sql says of transactions: BeginTx opens one if it returns no error; Rollback and
-- Commit end one, also when they return an error; other statements neither open nor end one. The
-- second number counts the queries that returned an error.
pub record TxLaws {D : Type 0} (sql : Sql D) (open_txs failed_queries : D → ℕ) : Type 0 where
  pub begin_open :
      (d : D) → (sql.begin_tx d).1 ≡ none → open_txs (sql.begin_tx d).0 ≡ suc (open_txs d)
  pub begin_failed :
      (d : D) {e : String} → (sql.begin_tx d).1 ≡ some e → open_txs (sql.begin_tx d).0 ≡ open_txs d
  pub rollback_ends : (d : D) → open_txs (sql.tx_rollback d).0 ≡ open_txs d - 1
  pub commit_ends : (d : D) → open_txs (sql.tx_commit d).0 ≡ open_txs d - 1
  pub tx_exec_keeps : (q : String) (d : D) → open_txs (sql.tx_exec q d).0 ≡ open_txs d
  pub exec_keeps : (q : String) (d : D) → open_txs (sql.exec q d).0 ≡ open_txs d
  pub query_keeps : (q : String) (d : D) → open_txs (sql.query_has_row q d).0 ≡ open_txs d
  pub close_keeps : (d : D) → open_txs (sql.close_rows d) ≡ open_txs d
  pub query_failed :
      (q : String) (d : D)
      → (sql.query_has_row q d).1 ≡ none
      → failed_queries (sql.query_has_row q d).0 ≡ suc (failed_queries d)
  pub query_ok :
      (q : String) (d : D) {row : Bool}
      → (sql.query_has_row q d).1 ≡ some row
      → failed_queries (sql.query_has_row q d).0 ≡ failed_queries d
  pub begin_fails_none : (d : D) → failed_queries (sql.begin_tx d).0 ≡ failed_queries d
  pub rollback_fails_none : (d : D) → failed_queries (sql.tx_rollback d).0 ≡ failed_queries d
  pub commit_fails_none : (d : D) → failed_queries (sql.tx_commit d).0 ≡ failed_queries d
  pub tx_exec_fails_none :
      (q : String) (d : D) → failed_queries (sql.tx_exec q d).0 ≡ failed_queries d
  pub exec_fails_none : (q : String) (d : D) → failed_queries (sql.exec q d).0 ≡ failed_queries d
  pub close_fails_none : (d : D) → failed_queries (sql.close_rows d) ≡ failed_queries d

module _ {D : Type 0} (sql : Sql D) (format_time : ℕ → String) (open_txs failed_queries : D → ℕ)
    (laws : TxLaws sql open_txs failed_queries) where
  -- One transaction was open, and it is ended now, but for those of failed queries.
  abbrev Ends : D → D → Type 0
  Ends d after = (suc (open_txs after) + failed_queries d ≡ open_txs d + failed_queries after)

  rollback-Ends : (d : D) → 1 ≤ open_txs d → Ends d (sql.tx_rollback d).0
  rollback-Ends d h = omega (arith, laws.rollback_ends d, laws.rollback_fails_none d)

  commit-Ends : (d : D) → 1 ≤ open_txs d → Ends d (sql.tx_commit d).0
  commit-Ends d h = omega (arith, laws.commit_ends d, laws.commit_fails_none d)

  attach_partition-Ends :
      (p : PartitionPeriod) (d : D) → 1 ≤ open_txs d → Ends d (attach_partition sql format_time p d)
  unfolding attach_partition
  attach_partition-Ends p d h =
      let q = attach_statement sql format_time p in
      ended (sql.exec q d).1 (sql.exec q d).0 (laws.exec_keeps q d) (laws.exec_fails_none q d)
    where
      ended :
          (error : Option String) (d' : D)
          → open_txs d' ≡ open_txs d
          → failed_queries d' ≡ failed_queries d
          → Ends d (end_tx sql format_time error d')
      ended (some e) d' a b = omega (arith, a, b, rollback-Ends d' (omega (arith, a, h)))
      ended none d' a b = omega (arith, a, b, commit-Ends d' (omega (arith, a, h)))

  create_partition-Ends :
      (p : PartitionPeriod) (d : D) → 1 ≤ open_txs d → Ends d (create_partition sql format_time p d)
  unfolding create_partition
  create_partition-Ends p d h =
      let q = create_statement sql format_time p in
      ended (sql.exec q d).1 (sql.exec q d).0 (laws.exec_keeps q d) (laws.exec_fails_none q d)
    where
      ended :
          (error : Option String) (d' : D)
          → open_txs d' ≡ open_txs d
          → failed_queries d' ≡ failed_queries d
          → Ends d (after_create sql format_time p error d')
      ended (some e) d' a b = omega (arith, a, b, rollback-Ends d' (omega (arith, a, h)))
      ended none d' a b = omega (arith, a, b, attach_partition-Ends p d' (omega (arith, a, h)))

  ensure_attached-Ends :
      (p : PartitionPeriod) (d : D) → 1 ≤ open_txs d → Ends d (ensure_attached sql format_time p d)
  unfolding ensure_attached
  ensure_attached-Ends p d h =
      let q = attached_query sql format_time p in ended q (sql.query_has_row q d).1 refl
    where
      ended :
          (q : String) (row : Option Bool)
          → (sql.query_has_row q d).1 ≡ row
          → Ends d (after_query sql format_time p row (sql.query_has_row q d).0)
      ended q none e = omega (arith, laws.query_keeps q d, laws.query_failed q d e)
      ended q (some false) e =
          let a = laws.query_keeps q d in
          omega (
            arith,
            a,
            laws.query_ok q d e,
            attach_partition-Ends p (sql.query_has_row q d).0 (omega (arith, a, h)),
          )
      ended q (some true) e =
          let d' = (sql.query_has_row q d).0 in
          let a = laws.query_keeps q d in
          let c = laws.close_keeps d' in
          omega (
            arith,
            a,
            c,
            laws.query_ok q d e,
            laws.close_fails_none d',
            commit-Ends (sql.close_rows d') (omega (arith, a, c, h)),
          )

  select-Ends :
      (p : PartitionPeriod) (error : Option String) (d : D)
      → 1 ≤ open_txs d
      → Ends d (after_select sql format_time p error d)
  select-Ends p none d h = ensure_attached-Ends p d h
  select-Ends p (some e) d h = chosen (contains_text e "42P01")
    where
      chosen :
          (b : Bool)
          → Ends d (if b then create_partition sql format_time p d else (sql.tx_rollback d).0)
      chosen true = create_partition-Ends p d h
      chosen false = rollback-Ends d h

  -- As many transactions are open as before, but for those of failed queries.
  abbrev Keeps : D → D → Type 0
  Keeps d after = (open_txs after + failed_queries d ≡ open_txs d + failed_queries after)

  partition_one-Keeps : (p : PartitionPeriod) (d : D) → Keeps d (partition_one sql format_time p d)
  unfolding partition_one
  partition_one-Keeps p d = begun (sql.begin_tx d).1 refl
    where
      begun :
          (error : Option String)
          → (sql.begin_tx d).1 ≡ error
          → Keeps d (after_begin sql format_time p error (sql.begin_tx d).0)
      begun (some e) failed = omega (arith, laws.begin_failed d failed, laws.begin_fails_none d)
      begun none opened =
          let d' = (sql.begin_tx d).0 in
          let q = "select * from " +++ (p.table_name +++ " limit 1;") in
          let a = laws.begin_open d opened in
          let c = laws.tx_exec_keeps q d' in
          omega (
            arith,
            a,
            laws.begin_fails_none d,
            c,
            laws.tx_exec_fails_none q d',
            select-Ends p (sql.tx_exec q d').1 (sql.tx_exec q d').0 (omega (arith, a, c)),
          )

  partition_all-Keeps :
      (ps : List PartitionPeriod) (d : D) → Keeps d (partition_all sql format_time ps d)
  unfolding partition_all
  partition_all-Keeps [] d = refl
  partition_all-Keeps (p ∷ ps) d =
      omega
        (arith, partition_one-Keeps p d, partition_all-Keeps ps (partition_one sql format_time p d))

  -- Partition ends every transaction that it opens, whatever statements fail, except for one
  -- transaction for each query of pg_inherits that fails: the open transactions grow by exactly the
  -- number of these queries. The hypotheses say which statements open and end a transaction, as
  -- database/sql documents them.
  pub transactions_ended :
      (print_number : ℕ → String) (now : ℕ) (days : ℤ) (d : D)
      → let after = (partition sql format_time print_number now days d).0 in
        open_txs after + failed_queries d ≡ open_txs d + failed_queries after
  unfolding partition
  transactions_ended print_number now days d = made (partitions_for_period print_number now days)
    where
      made : (r : Result (List PartitionPeriod)) → Keeps d (then_partition sql format_time r d).0
      made (ok ps) = partition_all-Keeps ps d
      made (err e) = refl
      made panic = refl

-- Partition returns an error exactly if more than 28 days are asked for: the errors of statements are
-- not returned.
pub partition-ok_iff :
    {D : Type 0} (sql : Sql D) (format_time print_number : ℕ → String) (now : ℕ) (days : ℤ) (d : D)
    → ((partition sql format_time print_number now days d).1 ≡ ok tt) ↔ (lt_ℤ (pos 28) days ≡ false)
unfolding partition partitions_for_period
partition-ok_iff sql format_time print_number now days d = elim (Bool-cases (lt_ℤ (pos 28) days)) [
  | inl e ↦ rw e ((λ x. cc), (λ x. cc))
  | inr e ↦ rw e ((λ x. refl), (λ x. refl))
]
