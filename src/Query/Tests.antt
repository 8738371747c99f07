-- ===== src/Query/Tests.antt =====
-- Queries of a viewer on one database.
use dbmanager.Base.{
  ℕ, ◌≤◌, String, ◌≡◌, refl, true, false, Option, none, some, or_else, List, [], ◌∷◌, length, take,
  zero, suc, arith, str_eq, if◌then◌else◌,
}
use dbmanager.Base.Text.{strip, lstrip, rstrip}
use dbmanager.Base.Outcome.{ok, http}
use dbmanager.Json.{Json, null}
use dbmanager.Users.Tests.{bob}
use dbmanager.Config.{DbConfig, Config, Manager, get_database}
use dbmanager.Query.{
  pos, negsuc, TokenType, keyword, dml, no_type, Token, Statement, Payload, Server, done, row_set,
  upper_words, is_write_statement, is_write, classify, assert_read_only, query_console,
  execute_query, run_query, check_size,
}
use dbmanager.Query.Limits.{IsDriver, query_console-viewer, query_console-rows}

abbrev word : TokenType → String → Token
word t w = record { ttype = t; is_whitespace = false; upper = w }

abbrev statement : List Token → Statement
statement ts = record { has_tokens = true; is_blank = false; flatten = ts }

-- Two texts that the parser knows.
abbrev parse : String → Option (List Statement)
parse q =
    if str_eq q "delete from t"
    then some (statement (word dml "DELETE" ∷ word keyword "FROM" ∷ word no_type "T" ∷ []) ∷ [])
    else if str_eq q "select a"
    then some (statement (word dml "SELECT" ∷ word no_type "A" ∷ []) ∷ [])
    else none

-- A server that notes the statements it has executed.
abbrev server : Server
server = record {
  Db = List String;
  connect = λ d db. some tt;
  execute = λ q db. (done (row_set ("a" ∷ []) (null ∷ null ∷ [])), q ∷ db);
  commit = λ db. (some tt, db);
  close = λ db. db;
  fetchmany = λ n rows. elim n [ pos k ↦ take k rows | negsuc k ↦ rows ];
  size = λ p. some (length p.rows);
  max_bytes = 100;
}

abbrev shop : DbConfig
shop = record {
  id = 1;
  name = "shop";
  provider = "postgres";
  params = null;
  retention = 0;
  s3_enabled = false;
  s3_bucket_id = none;
  s3_retention = 0;
  storage_target_ids = [];
}

abbrev config : Config
config = record {
  databases = shop ∷ [];
  storage_targets = [];
  s3_buckets = none;
  config_sync_bucket_id = none;
  schedules = [];
  global_settings = none;
  backup_metadata = λ f. none;
  ping_settings = none;
}

abbrev manager : Manager
manager = record { config = config; disk = config }

delete_refused : assert_read_only parse (strip (or_else (some " delete from t") "")) ≡ some 403
unfolding assert_read_only classify strip lstrip rstrip upper_words is_write_statement is_write
delete_refused = refl

query_console-viewer_example :
    ((query_console server parse 1 (some " delete from t") none manager bob []).1 ≡ [])
    × ((r : ℕ) × ((query_console server parse 1 (some " delete from t") none manager bob []).0
          ≡ http r))
query_console-viewer_example =
    query_console-viewer server parse 1 (some " delete from t") none manager bob [] 403 refl
      delete_refused

abbrev one_row : Payload
one_row = record { columns = "a" ∷ []; rows = null ∷ []; row_count = 1 }

select_answers :
    (query_console server parse 1 (some "select a") (some (pos 1)) manager bob []).0 ≡ ok one_row
unfolding query_console assert_read_only classify strip lstrip rstrip upper_words is_write_statement
    is_write get_database execute_query run_query check_size
select_answers = refl

length-take : (n : ℕ) (xs : List Json) → length (take n xs) ≤ n
length-take zero xs = omega arith
length-take (suc n) [] = omega arith
length-take (suc n) (x ∷ xs) = omega (arith, length-take n xs)

server-IsDriver : IsDriver server
server-IsDriver n rows = length-take (suc n) rows

query_console-rows_example : (length one_row.rows ≤ 10000) × (length one_row.rows ≤ 1)
query_console-rows_example =
    query_console-rows server parse 1 (some "select a") (some (pos 1)) 0 manager bob [] one_row
      server-IsDriver refl select_answers
