-- ===== src/Audit/Sanitized.antt =====
-- What `sanitize_details` promises: no value under a secret-looking key, no long text.
use dbmanager.Base.{
  ℕ, zero, suc, ◌+◌, ◌≤◌, String, ◌≡◌, refl, ap, Bool, true, false, arith, if◌then◌else◌,
}
use dbmanager.Base.Text.{len, cut}
use dbmanager.Json.{
  Json, Items, Fields, null, bool, num, str, list, tuple, dict, nil, cons, end, field,
}
use dbmanager.Audit.{is_secret_key, truncate, sanitize_details, sanitize_items, sanitize_fields}

module _ (lower : String → String) where
  -- Every text has at most 501 characters, and a secret-looking key holds `***`, at every depth.
  abbrev mutual
    pub IsClean : Json → Type 0
    IsClean null = Unit
    IsClean (bool b) = Unit
    IsClean (num n) = Unit
    IsClean (str s) = len s ≤ 501
    IsClean (list xs) = AreClean xs
    IsClean (tuple xs) = AreClean xs
    IsClean (dict fs) = AllClean fs

    pub AreClean : Items → Type 0
    AreClean nil = Unit
    AreClean (cons v xs) = IsClean v × AreClean xs

    pub AllClean : Fields → Type 0
    AllClean end = Unit
    AllClean (field k v fs) =
        ((is_secret_key lower k ≡ true → v ≡ str "***") × IsClean v) × AllClean fs

len-cut : (n : ℕ) (s e : String) → len (cut n s e) ≤ n + len e
len-cut zero s e = omega arith
len-cut (suc n) String.[] e = omega arith
len-cut (suc n) (String.◌∷◌ c s) e = omega (arith, len-cut n s e)

len-truncate : (s : String) → len (truncate s) ≤ 501
unfolding truncate
len-truncate s = ground (arith, len-cut 500 s "…")

-- A second cut at the same place finds the same text.
cut_again : (n : ℕ) (s e : String) → n ≤ len s → cut n (cut n s e) e ≡ cut n s e
cut_again zero s e h = refl
cut_again (suc n) String.[] e h = absurd (omega arith)
cut_again (suc n) (String.◌∷◌ c s) e h = ap (String.◌∷◌ c) (cut_again n s e (omega arith))

truncate_again : (s : String) → truncate (truncate s) ≡ truncate s
unfolding truncate
truncate_again s = ground (arith, cut_again 500 s "…")

module _ (lower : String → String) where
  shut_value : (b : Bool) (v : Json) → IsClean lower v → IsClean lower (if b then str "***" else v)
  shut_value true v h = omega arith
  shut_value false v h = h

  shut_value_eq : (b : Bool) (v : Json) → b ≡ true → (if b then str "***" else v) ≡ str "***"
  shut_value_eq b v h = ground arith

module _ (lower : String → String) where
  mutual
    unfolding sanitize_details

    sanitize-IsClean : (v : Json) → IsClean lower (sanitize_details lower v)
    sanitize-IsClean null = tt
    sanitize-IsClean (bool b) = tt
    sanitize-IsClean (num n) = tt
    sanitize-IsClean (str s) = len-truncate s
    sanitize-IsClean (list xs) = sanitize_items_clean xs
    sanitize-IsClean (tuple xs) = sanitize_items_clean xs
    sanitize-IsClean (dict fs) = sanitize_fields_clean fs

    sanitize_items_clean : (xs : Items) → AreClean lower (sanitize_items lower xs)
    sanitize_items_clean nil = tt
    sanitize_items_clean (cons v xs) = (sanitize-IsClean v, sanitize_items_clean xs)

    sanitize_fields_clean : (fs : Fields) → AllClean lower (sanitize_fields lower fs)
    sanitize_fields_clean end = tt
    sanitize_fields_clean (field k v fs) = (
      (
        shut_value_eq lower (is_secret_key lower k) (sanitize_details lower v),
        shut_value lower (is_secret_key lower k) (sanitize_details lower v) (sanitize-IsClean v),
      ),
      sanitize_fields_clean fs,
    )

  cut_shut :
      (b : Bool) (v : Json)
      → sanitize_details lower (sanitize_details lower v) ≡ sanitize_details lower v
      → (if b
          then str "***"
          else sanitize_details lower (if b then str "***" else sanitize_details lower v))
        ≡ (if b then str "***" else sanitize_details lower v)
  cut_shut true v h = refl
  cut_shut false v h = h

  mutual
    unfolding sanitize_details

    sanitize_again :
        (v : Json) → sanitize_details lower (sanitize_details lower v) ≡ sanitize_details lower v
    sanitize_again null = refl
    sanitize_again (bool b) = refl
    sanitize_again (num n) = refl
    sanitize_again (str s) = ap str (truncate_again s)
    sanitize_again (list xs) = ap list (sanitize_items_again xs)
    sanitize_again (tuple xs) = ap tuple (sanitize_items_again xs)
    sanitize_again (dict fs) = ap dict (sanitize_fields_again fs)

    sanitize_items_again :
        (xs : Items) → sanitize_items lower (sanitize_items lower xs) ≡ sanitize_items lower xs
    sanitize_items_again nil = refl
    sanitize_items_again (cons v xs) = cc (sanitize_again v, sanitize_items_again xs)

    sanitize_fields_again :
        (fs : Fields) → sanitize_fields lower (sanitize_fields lower fs) ≡ sanitize_fields lower fs
    sanitize_fields_again end = refl
    sanitize_fields_again (field k v fs) =
        cc (cut_shut (is_secret_key lower k) v (sanitize_again v), sanitize_fields_again fs)

  -- Sanitised details hold no text value of more than 501 characters and, under every key that looks
  -- secret, nothing but `***`, at every depth; sanitising them once more changes nothing.
  pub sanitize_details-IsClean :
      (v : Json)
      → IsClean lower (sanitize_details lower v)
        × (sanitize_details lower (sanitize_details lower v) ≡ sanitize_details lower v)
  sanitize_details-IsClean v = (sanitize-IsClean v, sanitize_again v)
