-- ===== src/Query/Limits.antt =====
-- What a query leaves of the database, and how many rows it answers with.
use dbmanager.Base.{
  ℕ, ◌≤◌, String, ◌≡◌, refl, Option, none, some, or_else, List, suc, arith, length, ap, min,
  Option-cases, Bool-cases, ◌⊎◌, inl, inr, if◌then◌else◌, text_is_empty,
}
use mathlib.Core.Path.{subst}
use dbmanager.Base.Text.{strip}
use dbmanager.Base.Outcome.{ok, http}
use dbmanager.Json.{Json}
use dbmanager.Users.{viewer, User}
use dbmanager.Config.{Manager, get_database}
use dbmanager.Query.{
  Statement, assert_read_only, Payload, ℤ, pos, capped, payload, Fetched, row_set, changed,
  Executed, done, timed_out, raised, Server, QueryResult, result, check_size, run_query, is_viewer,
  reply, execute_query, query_console,
}

-- The drivers take at most as many rows as they are asked for, if that is a positive number.
abbrev pub IsDriver : Server → Type 0
IsDriver sv = (n : ℕ) (rows : List Json) → length (sv.fetchmany (pos (suc n)) rows) ≤ suc n

Executed-cases :
    (e : Executed)
    → (e ≡ timed_out) ⊎ (((t : String) × (e ≡ raised t)) ⊎ ((f : Fetched) × (e ≡ done f)))
Executed-cases timed_out = inl refl
Executed-cases (raised t) = inr (inl (t, refl))
Executed-cases (done f) = inr (inr (f, refl))

check_size-result : (sv : Server) (p q : Payload) → check_size sv p ≡ result q → q ≡ p
unfolding check_size
check_size-result sv p q h = ground arith

module _ (sv : Server) (parse : String → Option (List Statement)) where
  payload-rows :
      (n : ℕ) (f : Fetched) → IsDriver sv → length (payload sv (pos (suc n)) f).rows ≤ suc n
  payload-rows n (row_set columns rows) d = d n rows
  payload-rows n (changed k) d = omega arith

  run_query-rows :
      (q : String) (n : ℕ) (db : sv.Db) (p : Payload)
      → IsDriver sv
      → (run_query sv q (pos (suc n)) db).0 ≡ result p
      → length p.rows ≤ suc n
  unfolding run_query
  run_query-rows q n db p law h = elim (Executed-cases (sv.execute q db).0) [
    | inl e ↦ absurd (ground arith)
    | inr (inl (t, e)) ↦ absurd (ground arith)
    | inr (inr (f, e)) ↦ elim (Option-cases (sv.commit (sv.execute q db).1).0) [
      | inl g ↦ absurd (ground arith)
      | inr (u, g) ↦
          ground (arith, payload-rows n f law, check_size-result sv (payload sv (pos (suc n)) f) p)
    ]
  ]

  execute_query-rows :
      (i : ℕ) (q : String) (n : ℕ) (m : Manager) (db : sv.Db) (p : Payload)
      → IsDriver sv
      → (execute_query sv i q (pos (suc n)) m db).0 ≡ result p
      → length p.rows ≤ suc n
  unfolding execute_query
  execute_query-rows i q n m db p law h = elim (Option-cases (get_database i m)) [
    | inl e ↦ absurd (ground arith)
    | inr (d, e) ↦ elim (Option-cases (sv.connect d db)) [
      | inl g ↦ absurd (ground arith)
      | inr (u, g) ↦ ground (arith, run_query-rows q n db p law)
    ]
  ]

  reply-ok : (r : QueryResult) (p : Payload) → reply sv r ≡ ok p → r ≡ result p
  reply-ok r p h = ground arith

  query_console-ok :
      (i : ℕ) (query : Option String) (limit : Option ℤ) (m : Manager) (u : User) (db : sv.Db)
      (p : Payload)
      → (query_console sv parse i query limit m u db).0 ≡ ok p
      → reply sv
          (execute_query sv i (strip (or_else query "")) (capped (or_else limit (pos 1000))) m db).0
        ≡ ok p
  unfolding query_console
  query_console-ok i query limit m u db p h = elim (Option-cases (get_database i m)) [
    | inl e ↦ absurd (ground arith)
    | inr (d, e) ↦ elim (Bool-cases (text_is_empty (strip (or_else query "")))) [
      | inl f ↦ absurd (ground arith)
      | inr f ↦
          elim (Option-cases (
            if is_viewer sv u.role
            then assert_read_only parse (strip (or_else query ""))
            else none)) [ inl g ↦ ground arith | inr (code, g) ↦ absurd (ground arith) ]
    ]
  ]

  -- The answer to a query has at most 10000 rows, and at most as many as the request asks for, which
  -- is 1000 where it names no number. A number that it names is positive; for another one nothing is
  -- said here.
  pub query_console-rows :
      (i : ℕ) (query : Option String) (limit : Option ℤ) (asked : ℕ) (m : Manager) (u : User)
      (db : sv.Db) (p : Payload)
      → IsDriver sv
      → or_else limit (pos 1000) ≡ pos (suc asked)
      → (query_console sv parse i query limit m u db).0 ≡ ok p
      → (length p.rows ≤ 10000) × (length p.rows ≤ suc asked)
  query_console-rows i query limit asked m u db p law e h =
      let q = strip (or_else query "") in
      let least : ℕ = min asked 9999 in
      let same : capped (or_else limit (pos 1000)) ≡ pos (suc least) =
        rw e (ap pos (ground arith)) in
      let answered : (execute_query sv i q (pos (suc least)) m db).0 ≡ result p =
        subst (λ l. (execute_query sv i q l m db).0 ≡ result p) same
          (reply-ok (execute_query sv i q (capped (or_else limit (pos 1000))) m db).0 p
            (query_console-ok i query limit m u db p h)) in
      let bound = execute_query-rows i q least m db p law answered in
      (omega (arith, bound), omega (arith, bound))

  -- A query of a viewer that does not pass the check reaches no server: the database is as it was, and
  -- the answer is an error.
  pub query_console-viewer :
      (i : ℕ) (query : Option String) (limit : Option ℤ) (m : Manager) (u : User) (db : sv.Db)
      (code : ℕ)
      → u.role ≡ viewer
      → assert_read_only parse (strip (or_else query "")) ≡ some code
      → ((query_console sv parse i query limit m u db).1 ≡ db)
        × ((r : ℕ) × ((query_console sv parse i query limit m u db).0 ≡ http r))
  unfolding query_console
  query_console-viewer i query limit m u db code v h = elim (Option-cases (get_database i m)) [
    | inl e ↦ (ground arith, (404, ground arith))
    | inr (d, e) ↦ elim (Bool-cases (text_is_empty (strip (or_else query "")))) [
      | inl f ↦ (ground arith, (400, ground arith))
      | inr f ↦ (ground arith, (code, ground arith))
    ]
  ]
