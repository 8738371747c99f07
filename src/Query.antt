-- ===== src/Query.antt =====
-- The query console: backend/api/routers/query.py, and `execute_query` of backend/core/manager.py. The
-- parser of SQL statements is sqlparse's; the drivers and the server behind them are a parameter.
pub mod ReadOnly
pub mod Limits
mod Tests
use dbmanager.Base.{
  ℕ, String, Bool, true, false, Option, none, some, or_else, List, [], ◌∷◌, map, ◌&&◌, ◌||◌, not,
  any, ltb, min, keep, length, take, str_eq, if◌then◌else◌, text_is_empty,
}
use dbmanager.Base.Text.{strip}
use dbmanager.Base.Outcome.{Reply, ok, http}
use dbmanager.Json.{Json}
use dbmanager.Users.{Role, admin, operator, viewer, User}
use dbmanager.Config.{DbConfig, Manager, get_database}

-- The token types that the code names, and all others.
pub data TokenType : Type 0 where
  comment comment_single comment_multiline keyword ddl dml cte no_type other : TokenType

-- `upper` is `value.upper()`.
pub record Token : Type 0 where
  pub ttype : TokenType
  pub is_whitespace : Bool
  pub upper : String

-- A parsed statement: whether it has tokens, whether its text is blank, and `flatten()`.
pub record Statement : Type 0 where
  pub has_tokens : Bool
  pub is_blank : Bool
  pub flatten : List Token

abbrev pub write_keywords : List String
write_keywords =
    "INSERT" ∷ "UPDATE" ∷ "DELETE" ∷ "DROP" ∷ "CREATE" ∷ "ALTER" ∷ "TRUNCATE" ∷ "REPLACE" ∷ "MERGE"
    ∷ "CALL" ∷ "EXEC" ∷ "EXECUTE" ∷ "GRANT" ∷ "REVOKE" ∷ "COPY" ∷ "DO" ∷ "LOAD" ∷ "VACUUM"
    ∷ "ANALYZE" ∷ "REINDEX" ∷ "CLUSTER" ∷ "LOCK" ∷ "RENAME" ∷ "COMMENT" ∷ "SET" ∷ "RESET" ∷ "BEGIN"
    ∷ "COMMIT" ∷ "ROLLBACK" ∷ "SAVEPOINT" ∷ "ATTACH" ∷ "DETACH" ∷ "PRAGMA" ∷ "HANDLER" ∷ "INSTALL"
    ∷ "UNINSTALL" ∷ []

pub is_write : String → Bool
is_write w = any (str_eq w) write_keywords

abbrev pub explain_mods : List String
explain_mods =
    "ANALYZE" ∷ "VERBOSE" ∷ "COSTS" ∷ "SETTINGS" ∷ "BUFFERS" ∷ "WAL" ∷ "TIMING" ∷ "SUMMARY"
    ∷ "FORMAT" ∷ []

pub is_explain_mod : String → Bool
is_explain_mod w = any (str_eq w) explain_mods

abbrev pub is_comment : TokenType → Bool
is_comment comment = true
is_comment comment_single = true
is_comment comment_multiline = true
is_comment _ = false

abbrev pub is_keyword : Token → Bool
is_keyword t = elim t.ttype [
  | keyword ↦ true
  | ddl ↦ true
  | dml ↦ true
  | cte ↦ true
  | no_type ↦ is_write t.upper
  | comment ↦ false
  | comment_single ↦ false
  | comment_multiline ↦ false
  | other ↦ false
]

-- `upper_words`
unfoldable pub upper_words : Statement → List String
upper_words s =
    map (λ (t : Token). t.upper)
      (keep is_keyword (keep (λ t. not t.is_whitespace && not (is_comment t.ttype)) s.flatten))

abbrev pub first_word : List String → String
first_word [] = ""
first_word (w ∷ ws) = w

abbrev pub later_words : List String → List String
later_words [] = []
later_words (w ∷ ws) = ws

-- The body of the loop for the keywords of a statement.
unfoldable pub is_write_statement : List String → Bool
is_write_statement ws =
    is_write (first_word ws)
    || str_eq (first_word ws) "EXPLAIN"
      && any (λ w. is_write w && not (is_explain_mod w)) (later_words ws)
    || str_eq (first_word ws) "WITH" && any is_write (later_words ws)

module _ (parse : String → Option (List Statement)) where
  -- `(contains_write, statement_count)`
  unfoldable pub classify : String → Bool × ℕ
  classify sql = elim (parse sql) [
    | none ↦ (true, 1)
    | some parsed ↦
        let stmts = keep (λ s. s.has_tokens && not s.is_blank) parsed in
        (any (λ s. is_write_statement (upper_words s)) stmts, length stmts)
  ]

  -- the status code that it raises
  unfoldable pub assert_read_only : String → Option ℕ
  assert_read_only sql =
      let (contains_write, n) = classify sql in
      if ltb 1 n then some 403 else if contains_write then some 403 else none

-- What a cursor has after a statement: the columns and rows if it returns rows, else the number of
-- rows that it changed.
pub data Fetched : Type 0 where
  row_set : List String → List Json → Fetched
  changed : ℕ → Fetched

pub data Executed : Type 0 where
  done : Fetched → Executed
  timed_out : Executed
  raised : String → Executed

pub record Payload : Type 0 where
  pub columns : List String
  pub rows : List Json
  pub row_count : ℕ

-- An integer; `negsuc n` is -(n + 1).
pub data ℤ : Type 0 where
  pos : ℕ → ℤ
  negsuc : ℕ → ℤ

-- `min(limit, 10000)`
abbrev pub capped : ℤ → ℤ
capped (pos n) = pos (min n 10000)
capped (negsuc n) = negsuc n

-- A server with the drivers: `execute` runs a statement in a transaction, `commit` ends it, and
-- `close` drops what was not committed; `none` is an exception. `fetchmany` takes rows of a result, also
-- for a size that is not positive, of which the documentation says nothing. `size` is the length of the payload
-- as JSON, with the exception for one that has no such form.
pub record Server : Type 1 where
  pub Db : Type 0
  pub connect : DbConfig → Db → Option (Unit {0})
  pub execute : String → Db → Executed × Db
  pub commit : Db → Option (Unit {0}) × Db
  pub close : Db → Db
  pub fetchmany : ℤ → List Json → List Json
  pub size : Payload → Option ℕ
  pub max_bytes : ℕ

pub data QueryResult : Type 0 where
  result : Payload → QueryResult
  query_timeout result_too_large : QueryResult
  failed : String → QueryResult

module _ (sv : Server) where
  abbrev pub payload : ℤ → Fetched → Payload
  payload limit (row_set columns rows) = record {
    columns = columns;
    rows = sv.fetchmany limit rows;
    row_count = length (sv.fetchmany limit rows);
  }
  payload limit (changed n) = record { columns = []; rows = []; row_count = n }

  -- The cap on the size of the result, which is checked after the commit.
  unfoldable pub check_size : Payload → QueryResult
  check_size p = elim (sv.size p) [
    | none ↦ result_too_large
    | some n ↦ if ltb sv.max_bytes n then result_too_large else result p
  ]

  unfoldable pub run_query : String → ℤ → sv.Db → QueryResult × sv.Db
  run_query query limit db =
      let (executed, db1) = sv.execute query db in
      let (committed, db2) = sv.commit db1 in
      elim executed [
        | timed_out ↦ (query_timeout, sv.close db1)
        | raised e ↦ (failed e, sv.close db1)
        | done fetched ↦ elim committed [
          | none ↦ (failed "commit", sv.close db2)
          | some _ ↦ (check_size (payload limit fetched), sv.close db2)
        ]
      ]

  abbrev pub supported : String → Bool
  supported p = any (str_eq p) ("postgres" ∷ "mysql" ∷ "mariadb" ∷ [])

  -- `DBManager.execute_query`
  unfoldable pub execute_query : ℕ → String → ℤ → Manager → sv.Db → QueryResult × sv.Db
  execute_query i query limit m db = elim (get_database i m) [
    | none ↦ (failed "not found", db)
    | some d ↦
        let ran = run_query query limit db in
        if not (supported d.provider)
        then (failed "not supported", db)
        else elim (sv.connect d db) [ none ↦ (failed "connection", db) | some _ ↦ ran ]
  ]

  abbrev pub reply : QueryResult → Reply Payload
  reply (result p) = ok p
  reply query_timeout = http 504
  reply result_too_large = http 413
  reply (failed e) = http 500

  abbrev pub is_viewer : Role → Bool
  is_viewer viewer = true
  is_viewer _ = false

  -- The handler of `POST /databases/{database_id}/query`. The limit of the request is an integer; for
  -- another JSON value `min` raises an exception or the driver gets it, which is left out.
  unfoldable pub query_console :
      (String → Option (List Statement))
      → ℕ
      → Option String
      → Option ℤ
      → Manager
      → User
      → sv.Db
      → Reply Payload × sv.Db
  query_console parse i query limit m u db =
      let q = strip (or_else query "") in
      let (r, db') = execute_query i q (capped (or_else limit (pos 1000))) m db in
      let run : Reply Payload × sv.Db = (reply r, db') in
      let checked : Option ℕ = if is_viewer u.role then assert_read_only parse q else none in
      elim (get_database i m) [
        | none ↦ (http 404, db)
        | some d ↦
            if text_is_empty q
            then (http 400, db)
            else elim checked [ none ↦ run | some code ↦ (http code, db) ]
      ]
