-- ===== src/Clients/Keeps.antt =====
-- Properties of the clients service's tables that actions keep, one rule for each way to build an
-- action. `view` finds the tables in the state: that of the service, or that of both services.
pub mod Repo
pub mod Services
pub mod Flows
pub mod Deliveries
use rvpay_go.Base.{
  ℕ, suc, String, Bool, true, false, Option, none, some, List, ◌++◌, ◌∷◌, [], ◌≡◌, refl,
  if◌then◌else◌,
}
use rvpay_go.Base.Pagination.{take, drop}
use rvpay_go.Base.Table.{find_row, any_row, filter_rows, update_rows, delete_rows}
use rvpay_go.Base.Effect.{
  Err, pg_error, Result, ok, err, Action, map_err, try, or_raise, lift, raise_if, wrap_error,
  wrap_not_found, no_rows, ◌>>=◌,
}
use rvpay_go.Clients.Model.{Uuid, Time, Tables, Db, now, outside, statement, draw_uuid}
use rvpay_go.Clients.Errors.{translate, found_or}
use rvpay_go.Clients.Query.{
  Table, select_one, select_page, insert_row, insert_into, update_one, delete_from, delete_row, one,
  with_table, removed, order_rows_desc,
}

-- Whether it returns or fails, `m` leaves tables with the property if it finds such.
pub record Keeps {W A : Type 0} (view : W → Tables) (P : Tables → Type 0) (m : Action W A)
    : Type 0 where
  pub at : (w : W) → P (view w) → P (view (m w).1)

module _ {W : Type 0} {view : W → Tables} {P : Tables → Type 0} where
  pub Keeps-lift : {A : Type 0} (r : Result A) → Keeps view P (λ w. (r, w))
  Keeps-lift r = record { at = λ w h. h }

  pub Keeps-or_raise : {A : Type 0} (o : Option A) (e : Err) → Keeps view P (or_raise o e)
  Keeps-or_raise none e = record { at = λ w h. h }
  Keeps-or_raise (some a) e = record { at = λ w h. h }

  pub Keeps-bind :
      {A B : Type 0} (m : Action W A) (f : A → Action W B)
      → Keeps view P m
      → ((a : A) → Keeps view P (f a))
      → Keeps view P (m >>= f)
  Keeps-bind {A} {B} m f km kf = record { at = λ w h. go (m w) (km.at w h) }
    where
      go :
          (r : Result A × W)
          → P (view r.1)
          → P (view (elim r.0 as (λ _. Result B × W) [ ok a ↦ f a r.1 | err e ↦ (err e, r.1) ]).1)
      go (ok a, u) k = (kf a).at u k
      go (err e, u) k = k

  pub Keeps-map_err :
      {A : Type 0} (f : Err → Err) (m : Action W A) → Keeps view P m → Keeps view P (map_err f m)
  Keeps-map_err {A} f m km = record { at = λ w h. go (m w) (km.at w h) }
    where
      go :
          (r : Result A × W)
          → P (view r.1)
          → P (
              view
                (elim r.0 as (λ _. Result A × W) [
                  | ok a ↦ (ok a, r.1)
                  | err e ↦ (err (f e), r.1)
                ]).1)
      go (ok a, u) k = k
      go (err e, u) k = k

  pub Keeps-try : {A : Type 0} (m : Action W A) → Keeps view P m → Keeps view P (try m)
  Keeps-try m km = record { at = λ w h. km.at w h }

  pub Keeps-translate : {A : Type 0} (m : Action W A) → Keeps view P m → Keeps view P (translate m)
  unfolding translate
  Keeps-translate m km = Keeps-map_err _ m km

  pub Keeps-found_or :
      {A : Type 0} (e : Err) (m : Action W A) → Keeps view P m → Keeps view P (found_or e m)
  unfolding found_or
  Keeps-found_or e m km = Keeps-map_err _ m km

  pub Keeps-if :
      {A : Type 0} (b : Bool) (m n : Action W A)
      → Keeps view P m
      → Keeps view P n
      → Keeps view P (if b then m else n)
  Keeps-if true m n km kn = km
  Keeps-if false m n km kn = kn

-- A property that every change a statement can make keeps: what a client of this module gives for
-- a property, and has for each statement.
module _ {P : Tables → Type 0} where
  pub Keeps-outside : {A : Type 0} (f : ℕ → Result A) → Keeps Db.tables P (outside f)
  Keeps-outside f = record { at = λ db h. h }

  -- A statement that is refused changes nothing.
  pub Keeps-statement :
      {A : Type 0} (q : Action Db A) → Keeps Db.tables P q → Keeps Db.tables P (statement q)
  Keeps-statement {A} q kq = record { at = λ db h. go db (db.fault db.ticks) h }
    where
      go :
          (db : Db) (fault : Option Err)
          → P db.tables
          → P
              (elim fault as (λ _. Result A × Db) [
                | some e ↦ (err e, record db { ticks = suc db.ticks })
                | none ↦ q (record db { ticks = suc db.ticks })
              ]).1.tables
      go db none h = kq.at (record db { ticks = suc db.ticks }) h
      go db (some e) h = h

  module _ {R : Type 0} (t : Table R) where
    pub Keeps-select_one : (p : R → Bool) → Keeps Db.tables P (select_one t p)
    unfolding select_one
    Keeps-select_one p =
        Keeps-statement (λ db. one (find_row p (t.rows db.tables)) db)
          (record { at = λ db h. go db (find_row p (t.rows db.tables)) h })
      where
        go : (db : Db) (o : Option R) → P db.tables → P (one o db).1.tables
        go db none h = h
        go db (some r) h = h

    pub Keeps-select_page :
        (p : R → Bool) (key : R → Time) (limit offset : ℕ)
        → Keeps Db.tables P (select_page t p key limit offset)
    unfolding select_page
    Keeps-select_page p key limit offset =
        Keeps-statement
          (λ db. (
            ok (take limit (drop offset (order_rows_desc key (filter_rows p (t.rows db.tables))))),
            db,
          ))
          (record { at = λ db h. h })

    module _ (refusal : R → Tables → Option String) where
      pub Keeps-insert_into :
          (row : Uuid → Time → R)
          → ((id : Uuid) (now : Time) (ts : Tables)
              → refusal (row id now) ts ≡ none
              → P ts
              → P (t.with_rows (t.rows ts ++ row id now ∷ []) ts))
          → Keeps Db.tables P (insert_into t refusal row)
      unfolding insert_into insert_row
      Keeps-insert_into row k =
          Keeps-statement (draw_uuid >>= λ id db. insert_row t refusal (row id (now db)) db)
            (record {
              at = λ db h.
                  go db (row (db.new_uuid db.drawn) (now db)) (k _ _ db.tables)
                    (refusal _ db.tables) refl h;
            })
        where
          go :
              (db : Db) (r : R)
              → (refusal r db.tables ≡ none
                  → P db.tables
                  → P (t.with_rows (t.rows db.tables ++ r ∷ []) db.tables))
              → (o : Option String) → refusal r db.tables ≡ o
              → P db.tables
              → P
                  (elim o as (λ _. Result R × Db) [
                    | some code ↦ (err (pg_error code), record db { drawn = suc db.drawn })
                    | none ↦ (
                      ok r,
                      with_table t
                          (t.rows db.tables ++ r ∷ [])
                          (record db { drawn = suc db.drawn }),
                    )
                  ]).1.tables
          go db r k none e h = k e h
          go db r k (some code) e h = h

      pub Keeps-update_one :
          (p : Time → R → Bool) (f : Time → R → R)
          → ((now : Time) (r : R) (ts : Tables)
              → find_row (p now) (t.rows ts) ≡ some r
              → refusal (f now r) ts ≡ none
              → P ts
              → P (t.with_rows (update_rows (p now) (f now) (t.rows ts)) ts))
          → Keeps Db.tables P (update_one t refusal p f)
      unfolding update_one
      Keeps-update_one p f k =
          Keeps-statement
            (λ db. elim (find_row (p (now db)) (t.rows db.tables)) [
              | none ↦ (err no_rows, db)
              | some r ↦ elim (refusal (f (now db) r) db.tables) [
                | some code ↦ (err (pg_error code), db)
                | none ↦ (
                  ok (f (now db) r),
                  with_table t (update_rows (p (now db)) (f (now db)) (t.rows db.tables)) db,
                )
              ]
            ])
            (record { at = λ db h. found db (find_row (p (now db)) (t.rows db.tables)) refl h })
        where
          set :
              (db : Db) (r : R)
              → find_row (p (now db)) (t.rows db.tables) ≡ some r
              → (o : Option String) → refusal (f (now db) r) db.tables ≡ o
              → P db.tables
              → P
                  (elim o as (λ _. Result R × Db) [
                    | some code ↦ (err (pg_error code), db)
                    | none ↦ (
                      ok (f (now db) r),
                      with_table t (update_rows (p (now db)) (f (now db)) (t.rows db.tables)) db,
                    )
                  ]).1.tables
          set db r e none n h = k (now db) r db.tables e n h
          set db r e (some code) n h = h

          found :
              (db : Db) (o : Option R)
              → find_row (p (now db)) (t.rows db.tables) ≡ o
              → P db.tables
              → P
                  (elim o as (λ _. Result R × Db) [
                    | none ↦ (err no_rows, db)
                    | some r ↦ elim (refusal (f (now db) r) db.tables) [
                      | some code ↦ (err (pg_error code), db)
                      | none ↦ (
                        ok (f (now db) r),
                        with_table t (update_rows (p (now db)) (f (now db)) (t.rows db.tables)) db,
                      )
                    ]
                  ]).1.tables
          found db none e h = h
          found db (some r) e h = set db r e (refusal (f (now db) r) db.tables) refl h

    pub Keeps-delete_from :
        (refusal : Tables → Option String) (cascade : Tables → Tables) (p : Time → R → Bool)
        → ((now : Time) (ts : Tables)
            → refusal ts ≡ none
            → P ts
            → P (cascade (t.with_rows (delete_rows (p now) (t.rows ts)) ts)))
        → Keeps Db.tables P (delete_from t refusal cascade p)
    unfolding delete_from
    Keeps-delete_from refusal cascade p k =
        Keeps-statement
          (λ db. elim (any_row (p (now db)) (t.rows db.tables)) [
            | false ↦ (ok 0, db)
            | true ↦ elim (refusal db.tables) [
              | some code ↦ (err (pg_error code), db)
              | none ↦ (
                ok (removed t (p (now db)) db.tables),
                record db {
                  tables =
                      cascade (t.with_rows (delete_rows (p (now db)) (t.rows db.tables)) db.tables);
                },
              )
            ]
          ])
          (record { at = λ db h. found db (any_row (p (now db)) (t.rows db.tables)) h })
      where
        gone :
            (db : Db) (o : Option String)
            → refusal db.tables ≡ o
            → P db.tables
            → P
                (elim o as (λ _. Result ℕ × Db) [
                  | some code ↦ (err (pg_error code), db)
                  | none ↦ (
                    ok (removed t (p (now db)) db.tables),
                    record db {
                      tables =
                          cascade
                            (t.with_rows (delete_rows (p (now db)) (t.rows db.tables)) db.tables);
                    },
                  )
                ]).1.tables
        gone db none e h = k (now db) db.tables e h
        gone db (some code) e h = h

        found :
            (db : Db) (b : Bool)
            → P db.tables
            → P
                (elim b as (λ _. Result ℕ × Db) [
                  | false ↦ (ok 0, db)
                  | true ↦ elim (refusal db.tables) [
                    | some code ↦ (err (pg_error code), db)
                    | none ↦ (
                      ok (removed t (p (now db)) db.tables),
                      record db {
                        tables =
                            cascade
                              (t.with_rows (delete_rows (p (now db)) (t.rows db.tables)) db.tables);
                      },
                    )
                  ]
                ]).1.tables
        found db false h = h
        found db true h = gone db (refusal db.tables) refl h

  pub Keeps-delete_row : (q : Action Db ℕ) → Keeps Db.tables P q → Keeps Db.tables P (delete_row q)
  unfolding delete_row
  Keeps-delete_row q kq =
      Keeps-bind (map_err wrap_error q) _ (Keeps-map_err wrap_error q kq) (λ n. Keeps-lift _)

pub ruleset keeps_rules = (
  Keeps-lift, Keeps-or_raise, Keeps-outside, Keeps-bind, Keeps-map_err, Keeps-try, Keeps-translate,
  Keeps-found_or, Keeps-if, Keeps-delete_row,
)
