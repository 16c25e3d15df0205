-- ===== src/Clients/Query.antt =====
-- The generated methods of clients/db/sqlc, by the shape of their statement. Each clause of a
-- statement is an argument: the table, the condition, what a constraint refuses.
use rvpay_go.Base.{
  ℕ, zero, suc, String, Bool, Option, none, some, List, [], ◌∷◌, ◌++◌, leb, length, if◌then◌else◌,
}
use rvpay_go.Base.Pagination.{take, drop}
use rvpay_go.Base.Table.{find_row, any_row, filter_rows, update_rows, delete_rows}
use rvpay_go.Base.Effect.{
  no_rows, pg_error, ok, err, Action, map_err, wrap_error, raise_if, err_not_found, ◌>>=◌,
}
use rvpay_go.Clients.Model.{Uuid, Time, Tables, Db, now, statement, draw_uuid}

-- A table: its rows, and the tables with other rows in it.
pub record Table (R : Type 0) : Type 0 where
  pub rows : Tables → List R
  pub with_rows : List R → Tables → Tables

module _ {R : Type 0} where
  -- `ORDER BY key DESC`, rows with equal keys in table order.
  unfoldable pub insert_row_desc : (R → ℕ) → R → List R → List R
  insert_row_desc key x [] = x ∷ []
  insert_row_desc key x (y ∷ ys) =
      if leb (key y) (key x) then x ∷ y ∷ ys else y ∷ insert_row_desc key x ys

  unfoldable pub order_rows_desc : (R → ℕ) → List R → List R
  unfolding insert_row_desc
  order_rows_desc key [] = []
  order_rows_desc key (x ∷ xs) = insert_row_desc key x (order_rows_desc key xs)

  -- The first row, or `pgx.ErrNoRows`.
  abbrev pub one : Option R → Action Db R
  one none db = (err no_rows, db)
  one (some r) db = (ok r, db)

  -- `SELECT … FROM t WHERE p`, read as `:one`.
  unfoldable pub select_one : Table R → (R → Bool) → Action Db R
  select_one t p = statement (λ db. one (find_row p (t.rows db.tables)) db)

  -- `SELECT EXISTS(SELECT 1 FROM t WHERE p)`.
  unfoldable pub select_exists : Table R → (R → Bool) → Action Db Bool
  select_exists t p = statement (λ db. (ok (any_row p (t.rows db.tables)), db))

  -- `SELECT COUNT(*) FROM t WHERE p`.
  unfoldable pub select_count : Table R → (R → Bool) → Action Db ℕ
  select_count t p = statement (λ db. (ok (length (filter_rows p (t.rows db.tables))), db))

  -- `SELECT … FROM t WHERE p ORDER BY key DESC`.
  unfoldable pub select_all : Table R → (R → Bool) → (R → Time) → Action Db (List R)
  select_all t p key =
      statement (λ db. (ok (order_rows_desc key (filter_rows p (t.rows db.tables))), db))

  -- `SELECT … FROM t WHERE p ORDER BY key DESC LIMIT limit OFFSET offset`.
  unfoldable pub select_page : Table R → (R → Bool) → (R → Time) → ℕ → ℕ → Action Db (List R)
  select_page t p key limit offset = statement (λ db.
      (ok (take limit (drop offset (order_rows_desc key (filter_rows p (t.rows db.tables))))), db))

  abbrev pub with_table : Table R → List R → Db → Db
  with_table t rs db = record db { tables = t.with_rows rs db.tables }

  -- The row is appended unless a constraint refuses it.
  unfoldable pub insert_row : Table R → (R → Tables → Option String) → R → Action Db R
  insert_row t refusal row db = elim (refusal row db.tables) [
    | some code ↦ (err (pg_error code), db)
    | none ↦ (ok row, with_table t (t.rows db.tables ++ row ∷ []) db)
  ]

  -- `INSERT INTO t … VALUES … RETURNING …`, with the defaults `gen_random_uuid()` and `NOW()`.
  unfoldable pub insert_into :
      Table R → (R → Tables → Option String) → (Uuid → Time → R) → Action Db R
  unfolding insert_row
  insert_into t refusal row =
      statement (draw_uuid >>= λ id db. insert_row t refusal (row id (now db)) db)

  -- `UPDATE t SET f WHERE p RETURNING …`, read as `:one`, on a table where `p` fits one row at most;
  -- `refusal` are the constraints that the row may then violate.
  unfoldable pub update_one :
      Table R → (R → Tables → Option String) → (Time → R → Bool) → (Time → R → R) → Action Db R
  update_one t refusal p f = statement (λ db.
      let set = λ (r : R). f (now db) r in
      elim (find_row (p (now db)) (t.rows db.tables)) [
        | none ↦ (err no_rows, db)
        | some r ↦ elim (refusal (set r) db.tables) [
          | some code ↦ (err (pg_error code), db)
          | none ↦ (ok (set r), with_table t (update_rows (p (now db)) set (t.rows db.tables)) db)
        ]
      ])

  -- The number of rows that a condition fits.
  abbrev pub removed : Table R → (R → Bool) → Tables → ℕ
  removed t p ts = length (filter_rows p (t.rows ts))

  -- `DELETE FROM t WHERE p`, and the number of rows that it removes; `refusal` are the foreign keys
  -- that restrict it, and `cascade` removes what refers to the rows.
  unfoldable pub delete_from :
      Table R → (Tables → Option String) → (Tables → Tables) → (Time → R → Bool) → Action Db ℕ
  delete_from t refusal cascade p = statement (λ db.
      let rs = t.rows db.tables in
      elim (any_row (p (now db)) rs) [
        | Bool.false ↦ (ok 0, db)
        | Bool.true ↦ elim (refusal db.tables) [
          | some code ↦ (err (pg_error code), db)
          | none ↦ (
            ok (removed t (p (now db)) db.tables),
            record db { tables = cascade (t.with_rows (delete_rows (p (now db)) rs) db.tables) },
          )
        ]
      ])

-- No constraint can refuse the row.
abbrev pub unrestricted : {R : Type 0} → R → Tables → Option String
unrestricted _ _ = none

-- `Delete` of the repositories: an error for a statement that removed no row.
unfoldable pub delete_row : Action Db ℕ → Action Db (Unit {0})
delete_row q = map_err wrap_error q >>= λ n.
    raise_if (elim n [ zero ↦ Bool.true | suc _ ↦ Bool.false ]) err_not_found
