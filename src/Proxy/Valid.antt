-- ===== src/Proxy/Valid.antt =====
-- The characters of validated values.
use dbmanager.Base.{
  ℕ, suc, ◌+◌, ◌*◌, ◌-◌, String, Bool, true, false, Option, none, some, ◌≡◌, refl, ap, ◌||◌, ◌==◌,
  text_is_empty, arith, Bool-cases, inl, inr,
}
use mathlib.Core.Path.{subst}
use Prim.Native.Char.{code}
use dbmanager.Base.Text.{strip}
use dbmanager.Proxy.{
  ProxyConfig, ◌>>=◌, is_digit, is_alnum, is_letter, is_host_char, is_mail_char, is_path_char,
  is_prefix_char, mail_letters, all_chars, valid_labels, valid_port, valid_upstream,
  valid_mail_host, valid_email, valid_path, valid_prefix, validated, checked_or_empty,
  validate_domain, validate_email, validate_path, validate_upstream, validate_path_prefix, validate,
}

-- Letters, digits and the marks that some value may have.
unfoldable pub is_safe : ℕ → Bool
is_safe n =
    is_letter n
    || is_digit n
    || n == b'/'
    || n == b'_'
    || n == b'.'
    || n == b'-'
    || n == b':'
    || n == b'@'
    || n == b'%'
    || n == b'+'

abbrev pub Safe : String → Type 0
Safe s = all_chars is_safe s ≡ true

host_char-safe : (n k : ℕ) → is_host_char n k ≡ true → is_safe k ≡ true
unfolding is_host_char is_safe
host_char-safe n k h = ground arith

mail_char-safe : (k : ℕ) → is_mail_char k ≡ true → is_safe k ≡ true
unfolding is_mail_char is_safe
mail_char-safe k h = ground arith

colon-safe : (k : ℕ) → (k == b':') ≡ true → is_safe k ≡ true
unfolding is_safe
colon-safe k h = ground arith

at-safe : (k : ℕ) → (k == b'@') ≡ true → is_safe k ≡ true
unfolding is_safe
at-safe k h = ground arith

valid_labels-Safe : (n : ℕ) (b : Bool) (s : String) → valid_labels n b s ≡ true → Safe s
unfolding valid_labels all_chars is_safe
valid_labels-Safe n b String.[] h = refl
valid_labels-Safe n b (String.◌∷◌ c s) h =
    ground (arith, valid_labels-Safe 0 false s, valid_labels-Safe (suc n) (is_alnum (code c)) s)

valid_port-Safe : (n port : ℕ) (s : String) → valid_port n port s ≡ true → Safe s
unfolding valid_port all_chars is_safe
valid_port-Safe n port String.[] h = refl
valid_port-Safe n port (String.◌∷◌ c s) h =
    ground (arith, valid_port-Safe (suc n) (port * 10 + (code c - 48)) s)

valid_upstream-Safe : (n : ℕ) (b : Bool) (s : String) → valid_upstream n b s ≡ true → Safe s
unfolding valid_upstream all_chars
valid_upstream-Safe n b String.[] h = refl
valid_upstream-Safe n b (String.◌∷◌ c s) h =
    let tail = valid_upstream-Safe (suc n) (is_alnum (code c)) s in
    elim (Bool-cases (code c == b':')) [
      | inl e ↦ ground (arith, colon-safe (code c) e, valid_port-Safe 0 0 s)
      | inr e ↦ ground (arith, host_char-safe n (code c), tail)
    ]

valid_mail_host-Safe : (n : ℕ) (l : Option ℕ) (s : String) → valid_mail_host n l s ≡ true → Safe s
unfolding valid_mail_host all_chars is_safe
valid_mail_host-Safe n l String.[] h = refl
valid_mail_host-Safe n l (String.◌∷◌ c s) h =
    let tail = valid_mail_host-Safe (suc n) (mail_letters n l (code c)) s in ground arith

valid_email-Safe : (n : ℕ) (s : String) → valid_email n s ≡ true → Safe s
unfolding valid_email all_chars
valid_email-Safe n String.[] h = refl
valid_email-Safe n (String.◌∷◌ c s) h = elim (Bool-cases (code c == b'@')) [
  | inl e ↦ ground (arith, at-safe (code c) e, valid_mail_host-Safe 0 none s)
  | inr e ↦ ground (arith, mail_char-safe (code c), valid_email-Safe (suc n) s)
]

pub all_chars_weaken :
    (p q : ℕ → Bool) (s : String)
    → ((n : ℕ) → p n ≡ true → q n ≡ true)
    → all_chars p s ≡ true
    → all_chars q s ≡ true
unfolding all_chars
all_chars_weaken p q String.[] i h = refl
all_chars_weaken p q (String.◌∷◌ c s) i h = ground (arith, i (code c), all_chars_weaken p q s i)

valid_path-Safe : (s : String) → valid_path s ≡ true → Safe s
unfolding valid_path all_chars is_safe
valid_path-Safe String.[] h = refl
valid_path-Safe (String.◌∷◌ c s) h =
    ground (arith, all_chars_weaken is_path_char is_safe s (λ n k. ground arith))

valid_prefix-Safe : (s : String) → valid_prefix s ≡ true → Safe s
unfolding valid_prefix all_chars is_safe
valid_prefix-Safe String.[] h = refl
valid_prefix-Safe (String.◌∷◌ c s) h =
    ground (arith, all_chars_weaken is_prefix_char is_safe s (λ n k. ground arith))

empty-Safe : (s : String) → text_is_empty s ≡ true → Safe s
unfolding all_chars
empty-Safe String.[] h = refl
empty-Safe (String.◌∷◌ c s) h = cc

-- What the validators let through is safe.
validated-Safe :
    (valid : String → Bool) (v s : String)
    → ((u : String) → valid u ≡ true → Safe u)
    → validated valid v ≡ some s
    → Safe s
unfolding validated
validated-Safe valid v s lem h = elim (Bool-cases (valid v)) [
  | inl e ↦ let same : v ≡ s = ground arith in subst Safe same (lem v e)
  | inr e ↦ absurd (ground arith)
]

checked_or_empty-Safe :
    (valid : String → Bool) (v s : String)
    → ((u : String) → valid u ≡ true → Safe u)
    → checked_or_empty valid v ≡ some s
    → Safe s
unfolding checked_or_empty
checked_or_empty-Safe valid v s lem h = elim (Bool-cases (text_is_empty v)) [
  | inl e ↦ let same : v ≡ s = ground arith in subst Safe same (empty-Safe v e)
  | inr e ↦ elim (Bool-cases (valid v)) [
    | inl f ↦ let same : v ≡ s = ground arith in subst Safe same (lem v f)
    | inr f ↦ absurd (ground arith)
  ]
]

-- The values that the Caddyfile is made of.
pub record IsSafe (c : ProxyConfig) : Type 0 where
  pub domain : Safe c.domain
  pub email : Safe c.email
  pub cert_path : Safe c.cert_path
  pub key_path : Safe c.key_path
  pub frontend_upstream : Safe c.frontend_upstream
  pub backend_upstream : Safe c.backend_upstream
  pub backend_path_prefix : Safe c.backend_path_prefix

some_eq : {A : Type 0} {a b : A} → some a ≡ some b → a ≡ b
some_eq {a = a} p = ap (λ o. elim o [ none ↦ a | some x ↦ x ]) p

-- A chain that answers has an answer at each step.
bind-some :
    {A B : Type 0} (m : Option A) (f : A → Option B) {b : B}
    → (m >>= f) ≡ some b
    → (a : A) × (m ≡ some a) × (f a ≡ some b)
bind-some none f h = cc
bind-some (some a) f h = (a, refl, h)

pub validate-IsSafe :
    (lower : String → String) (c d : ProxyConfig) → validate lower c ≡ some d → IsSafe d
unfolding validate bind-some validate_domain validate_email validate_path validate_upstream
    validate_path_prefix
validate-IsSafe lower c d h =
    let (a1, e1, h1) = bind-some (validate_domain lower c.domain) _ h in
    let (a2, e2, h2) = bind-some (validate_email c.email) _ h1 in
    let (a3, e3, h3) = bind-some (validate_path c.cert_path) _ h2 in
    let (a4, e4, h4) = bind-some (validate_path c.key_path) _ h3 in
    let (a5, e5, h5) = bind-some (validate_upstream c.frontend_upstream) _ h4 in
    let (a6, e6, h6) = bind-some (validate_upstream c.backend_upstream) _ h5 in
    let (a7, e7, h7) = bind-some (validate_path_prefix c.backend_path_prefix) _ h6 in
    let path = checked_or_empty-Safe valid_path in
    subst (λ x. IsSafe x) (some_eq h7)
      (record {
        domain =
            checked_or_empty-Safe (valid_labels 0 false) (lower (strip c.domain)) a1
              (valid_labels-Safe 0 false) e1;
        email = checked_or_empty-Safe (valid_email 0) (strip c.email) a2 (valid_email-Safe 0) e2;
        cert_path = checked_or_empty-Safe valid_path (strip c.cert_path) a3 valid_path-Safe e3;
        key_path = checked_or_empty-Safe valid_path (strip c.key_path) a4 valid_path-Safe e4;
        frontend_upstream =
            validated-Safe (valid_upstream 0 false) (strip c.frontend_upstream) a5
              (valid_upstream-Safe 0 false) e5;
        backend_upstream =
            validated-Safe (valid_upstream 0 false) (strip c.backend_upstream) a6
              (valid_upstream-Safe 0 false) e6;
        backend_path_prefix =
            validated-Safe valid_prefix (strip c.backend_path_prefix) a7 valid_prefix-Safe e7;
      })
