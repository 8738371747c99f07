-- ===== src/Query/ReadOnly.antt =====
-- Which queries of a viewer are executed, in terms of their tokens.
use dbmanager.Base.{
  ◌≤◌, String, ◌≡◌, ◌≢◌, refl, ◌∙◌, Bool, true, false, Option, some, List, [], ◌∷◌, ◌⊎◌, ◌&&◌, ◌||◌,
  not, any, map, arith, All, keep, length, eq_iff, Bool-cases, inl, inr,
}
use mathlib.Core.Path.{subst}
use dbmanager.Query.{
  TokenType, keyword, ddl, dml, cte, no_type, comment, comment_single, comment_multiline, other,
  Token, Statement, is_comment, is_keyword, is_write, is_explain_mod, is_write_statement,
}

-- A token that counts as a keyword of the statement: one of the four types of keywords, or one without
-- a type whose text writes.
abbrev pub IsKeyword : Token → Type 0
IsKeyword t =
    (t.is_whitespace ≡ false)
    × ((t.ttype ≡ keyword)
        ⊎ (t.ttype ≡ ddl)
        ⊎ (t.ttype ≡ dml)
        ⊎ (t.ttype ≡ cte)
        ⊎ ((t.ttype ≡ no_type) × (is_write t.upper ≡ true)))

-- A token between the keywords.
abbrev pub IsFiller : Token → Type 0
IsFiller t =
    (t.is_whitespace ≡ true)
    ⊎ (t.ttype ≡ comment)
    ⊎ (t.ttype ≡ comment_single)
    ⊎ (t.ttype ≡ comment_multiline)
    ⊎ (t.ttype ≡ other)
    ⊎ ((t.ttype ≡ no_type) × (is_write t.upper ≡ false))

-- `Leads k rest ts`: `k` is the first keyword of `ts`, and `rest` follows it.
pub data Leads : Token → List Token → List Token → Type 0 where
  here : (k : Token) → (ts : List Token) → IsKeyword k → Leads k ts (k ∷ ts)
  later :
      (t k : Token) → (rest ts : List Token) → IsFiller t → Leads k rest ts → Leads k rest (t ∷ ts)

-- No keyword among the tokens writes, but for those that satisfy `P`.
abbrev pub NoWrite : (String → Bool) → List Token → Type 0
NoWrite p ts = All (λ t. IsFiller t ⊎ (is_write t.upper ≡ false) ⊎ (p t.upper ≡ true)) ts

-- A statement without keywords reads. Else its first keyword does not write; after `EXPLAIN` no keyword
-- writes but the modifiers of `EXPLAIN` do, and after `WITH` none at all.
pub data Reads : List Token → Type 0 where
  no_keyword : (ts : List Token) → All IsFiller ts → Reads ts
  led :
      (k : Token)
      → (rest ts : List Token) → Leads k rest ts
      → is_write k.upper ≡ false
      → (k.upper ≢ "EXPLAIN") ⊎ NoWrite is_explain_mod rest
      → (k.upper ≢ "WITH") ⊎ NoWrite (λ w. false) rest
      → Reads ts

-- The statements that are not empty.
abbrev pub statements : List Statement → List Statement
statements parsed = keep (λ s. s.has_tokens && not s.is_blank) parsed

-- sqlparse can read the query, it is one statement at most, and that only reads.
pub record IsReadOnly (parse : String → Option (List Statement)) (sql : String) : Type 0 where
  pub parsed : List Statement
  pub parses : parse sql ≡ some parsed
  pub single : length (statements parsed) ≤ 1
  pub reads : All (λ s. Reads s.flatten) (statements parsed)

abbrev counted : Token → Bool
counted t = not t.is_whitespace && not (is_comment t.ttype)

-- The words that the code takes from a list of tokens.
words_of : List Token → List String
words_of ts = map (λ (t : Token). t.upper) (keep is_keyword (keep counted ts))

TokenType-cases :
    (y : TokenType)
    → ((y ≡ keyword) ⊎ (y ≡ ddl) ⊎ (y ≡ dml) ⊎ (y ≡ cte))
      ⊎ ((y ≡ comment) ⊎ (y ≡ comment_single) ⊎ (y ≡ comment_multiline) ⊎ (y ≡ other))
      ⊎ (y ≡ no_type)
TokenType-cases keyword = inl (inl refl)
TokenType-cases ddl = inl (inr (inl refl))
TokenType-cases dml = inl (inr (inr (inl refl)))
TokenType-cases cte = inl (inr (inr (inr refl)))
TokenType-cases comment = inr (inl (inl refl))
TokenType-cases comment_single = inr (inl (inr (inl refl)))
TokenType-cases comment_multiline = inr (inl (inr (inr (inl refl))))
TokenType-cases other = inr (inl (inr (inr (inr refl))))
TokenType-cases no_type = inr (inr refl)

kind : (t : Token) → IsKeyword t ⊎ IsFiller t
kind t =
    ground
      (arith, TokenType-cases t.ttype, Bool-cases t.is_whitespace, Bool-cases (is_write t.upper))

keyword_counts : (t : Token) → IsKeyword t → (counted t ≡ true) × (is_keyword t ≡ true)
keyword_counts t h = ground arith

keyword_kept :
    (t : Token) (ts : List Token) → IsKeyword t → words_of (t ∷ ts) ≡ t.upper ∷ words_of ts
unfolding words_of
keyword_kept t ts h = let (a, b) = keyword_counts t h in ground arith

filler_drops : (t : Token) → IsFiller t → (counted t ≡ false) ⊎ (is_keyword t ≡ false)
filler_drops t h = ground arith

filler_skipped : (t : Token) (ts : List Token) → IsFiller t → words_of (t ∷ ts) ≡ words_of ts
unfolding words_of
filler_skipped t ts h = elim (filler_drops t h) [
  | inl e ↦ ground arith
  | inr e ↦ elim (Bool-cases (counted t)) [ inl c ↦ ground arith | inr c ↦ ground arith ]
]

Leads-words :
    (k : Token) (rest ts : List Token) → Leads k rest ts → words_of ts ≡ k.upper ∷ words_of rest
Leads-words _ _ _ (here k ts h) = keyword_kept k ts h
Leads-words _ _ _ (later t k rest ts f l) = filler_skipped t ts f ∙ Leads-words k rest ts l

-- All tokens are fillers, or there is a first keyword.
Leads-cases :
    (ts : List Token) → All IsFiller ts ⊎ ((k : Token) × (rest : List Token) × Leads k rest ts)
Leads-cases [] = inl tt
Leads-cases (t ∷ ts) = elim (kind t) [
  | inl w ↦ inr (t, ts, here t ts w)
  | inr f ↦ elim (Leads-cases ts) [
    | inl fs ↦ inl (f, fs)
    | inr (k, rest, l) ↦ inr (k, rest, later t k rest ts f l)
  ]
]

abbrev writes_beside : (String → Bool) → String → Bool
writes_beside p w = is_write w && not (p w)

any-NoWrite :
    (p : String → Bool) (ts : List Token)
    → any (writes_beside p) (words_of ts) ≡ false
    → NoWrite p ts
any-NoWrite p [] h = tt
any-NoWrite p (t ∷ ts) h = elim (kind t) [
  | inr f ↦ (inl f, any-NoWrite p ts (ground (arith, filler_skipped t ts f)))
  | inl k ↦
      let both : (writes_beside p t.upper || any (writes_beside p) (words_of ts)) ≡ false =
        subst (λ ws. any (writes_beside p) ws ≡ false) (keyword_kept t ts k) h in
      (
        inr (ground (arith, Bool-cases (is_write t.upper), Bool-cases (p t.upper))),
        any-NoWrite p ts (ground arith),
      )
]

any-none : (ws : List String) → any (writes_beside (λ w. false)) ws ≡ any is_write ws
any-none [] = refl
any-none (w ∷ ws) = ground (arith, any-none ws)

-- The three tests of a statement, on the words of its tokens.
module _ (w : String) (ws : List String) where
  word_tests :
      is_write_statement (w ∷ ws) ≡ false
      → (is_write w ≡ false)
        × ((w ≢ "EXPLAIN") ⊎ (any (writes_beside is_explain_mod) ws ≡ false))
        × ((w ≢ "WITH") ⊎ (any (writes_beside (λ v. false)) ws ≡ false))
  unfolding is_write_statement
  word_tests h = ground (arith, eq_iff w "EXPLAIN", eq_iff w "WITH", any-none ws)

reads : (ts : List Token) → is_write_statement (words_of ts) ≡ false → Reads ts
reads ts h = elim (Leads-cases ts) [
  | inl fs ↦ no_keyword ts fs
  | inr (k, rest, l) ↦
      let (a, b, c) =
        word_tests k.upper (words_of rest)
          (subst (λ ws. is_write_statement ws ≡ false) (Leads-words k rest ts l) h) in
      led k rest ts l a (elim b [ inl n ↦ inl n | inr e ↦ inr (any-NoWrite is_explain_mod rest e) ])
        (elim c [ inl n ↦ inl n | inr e ↦ inr (any-NoWrite (λ v. false) rest e) ])
]
