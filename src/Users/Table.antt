-- ===== src/Users/Table.antt =====
-- Lemmas on the rows of the `users` table: keys stay unique, and what an update or a deletion does
-- to a lookup and to a count.
use dbmanager.Base.{
  ℕ, ◌+◌, String, ◌≡◌, refl, Bool, false, none, some, List, [], ◌∷◌, ◌++◌, not, arith, keep, find,
  count, ◌==◌, eq_iff, if◌then◌else◌,
}
use dbmanager.Users.{User, has_id, has_name, put_user, remove_user}

abbrev pub UniqueIds : List User → Type 0
UniqueIds [] = Unit
UniqueIds (u ∷ us) = (find (has_id u.id) us ≡ none) × UniqueIds us

abbrev pub UniqueNames : List User → Type 0
UniqueNames [] = Unit
UniqueNames (u ∷ us) = (find (has_name u.username) us ≡ none) × UniqueNames us

-- What a row counts for.
abbrev pub weight : Bool → ℕ
weight b = if b then 1 else 0

pub find-id : (i : ℕ) (us : List User) {v : User} → find (has_id i) us ≡ some v → v.id ≡ i
find-id i [] h = cc
find-id i (u ∷ us) {v} h = ground (arith, find-id i us {v = v})

pub count-put :
    (p : User → Bool) (u v : User) (us : List User)
    → find (has_id u.id) us ≡ some v
    → count p (put_user u us) + weight (p v) ≡ count p us + weight (p u)
unfolding put_user
count-put p u v [] h = cc
count-put p u v (w ∷ us) h = ground (arith, count-put p u v us)

-- The row with the key of the new row is the new row; every other lookup is unchanged.
pub find-put :
    (u v : User) (i : ℕ) (us : List User)
    → find (has_id u.id) us ≡ some v
    → find (has_id i) (put_user u us) ≡ (if u.id == i then some u else find (has_id i) us)
unfolding put_user
find-put u v i [] h = cc
find-put u v i (w ∷ us) h = ground (arith, find-put u v i us)

find-id-put :
    (u : User) (i : ℕ) (us : List User)
    → find (has_id i) us ≡ none
    → find (has_id i) (put_user u us) ≡ none
unfolding put_user
find-id-put u i [] h = refl
find-id-put u i (w ∷ us) h = ground (arith, find-id-put u i us)

find-name-put :
    (u v : User) (n : String) (us : List User)
    → find (has_id u.id) us ≡ some v
    → v.username ≡ u.username
    → find (has_name n) us ≡ none
    → find (has_name n) (put_user u us) ≡ none
unfolding put_user
find-name-put u v n [] e s h = cc
find-name-put u v n (w ∷ us) e s h = ground (arith, find-name-put u v n us)

pub put-UniqueIds : (u : User) (us : List User) → UniqueIds us → UniqueIds (put_user u us)
unfolding put_user
put-UniqueIds u [] h = tt
put-UniqueIds u (w ∷ us) h = ground (arith, put-UniqueIds u us h.1, find-id-put u w.id us)

pub put-UniqueNames :
    (u v : User) (us : List User)
    → find (has_id u.id) us ≡ some v
    → v.username ≡ u.username
    → UniqueNames us
    → UniqueNames (put_user u us)
unfolding put_user
put-UniqueNames u v [] e s h = tt
put-UniqueNames u v (w ∷ us) e s h =
    ground (arith, put-UniqueNames u v us, find-name-put u v w.username us)

find-append :
    (p : User → Bool) (us : List User) (u : User)
    → find p us ≡ none
    → p u ≡ false
    → find p (us ++ u ∷ []) ≡ none
find-append p [] u h k = ground arith
find-append p (w ∷ us) u h k = ground (arith, find-append p us u)

pub append-UniqueIds :
    (us : List User) (u : User)
    → UniqueIds us
    → find (has_id u.id) us ≡ none
    → UniqueIds (us ++ u ∷ [])
append-UniqueIds [] u h k = (refl, tt)
append-UniqueIds (w ∷ us) u h k =
    ground (arith, append-UniqueIds us u h.1, find-append (has_id w.id) us u)

pub append-UniqueNames :
    (us : List User) (u : User)
    → UniqueNames us
    → find (has_name u.username) us ≡ none
    → UniqueNames (us ++ u ∷ [])
append-UniqueNames [] u h k = (refl, tt)
append-UniqueNames (w ∷ us) u h k = ground (
  arith,
  append-UniqueNames us u h.1,
  find-append (has_name w.username) us u,
  eq_iff u.username w.username,
  eq_iff w.username u.username,
)

find-keep : (p q : User → Bool) (us : List User) → find p us ≡ none → find p (keep q us) ≡ none
find-keep p q [] h = refl
find-keep p q (w ∷ us) h = ground (arith, find-keep p q us)

pub remove-UniqueIds : (i : ℕ) (us : List User) → UniqueIds us → UniqueIds (remove_user i us)
unfolding remove_user
remove-UniqueIds i [] h = tt
remove-UniqueIds i (w ∷ us) h =
    ground (
      arith,
      remove-UniqueIds i us h.1,
      find-keep (has_id w.id) (λ (u : User). not (has_id i u)) us,
    )

pub remove-UniqueNames : (i : ℕ) (us : List User) → UniqueNames us → UniqueNames (remove_user i us)
unfolding remove_user
remove-UniqueNames i [] h = tt
remove-UniqueNames i (w ∷ us) h = ground (
  arith,
  remove-UniqueNames i us h.1,
  find-keep (has_name w.username) (λ (u : User). not (has_id i u)) us,
)

count-remove_absent :
    (p : User → Bool) (i : ℕ) (us : List User)
    → find (has_id i) us ≡ none
    → count p (remove_user i us) ≡ count p us
unfolding remove_user
count-remove_absent p i [] h = refl
count-remove_absent p i (w ∷ us) h = ground (arith, count-remove_absent p i us)

pub count-remove :
    (p : User → Bool) (i : ℕ) (v : User) (us : List User)
    → UniqueIds us
    → find (has_id i) us ≡ some v
    → count p (remove_user i us) + weight (p v) ≡ count p us
unfolding remove_user
count-remove p i v [] u h = cc
count-remove p i v (w ∷ us) u h =
    ground (arith, count-remove p i v us u.1, count-remove_absent p i us, find-id i us)

pub find-remove :
    (i j : ℕ) (us : List User)
    → find (has_id j) (remove_user i us) ≡ (if i == j then none else find (has_id j) us)
unfolding remove_user
find-remove i j [] = ground arith
find-remove i j (w ∷ us) = ground (arith, find-remove i j us)

-- The row that a unique name finds is the row that its id finds.
pub find-name_id :
    (n : String) (us : List User) {v : User}
    → UniqueIds us
    → find (has_name n) us ≡ some v
    → find (has_id v.id) us ≡ some v
find-name_id n [] u h = cc
find-name_id n (w ∷ us) {v} u h = ground (arith, find-name_id n us {v = v} u.1)

pub find-name-put_self :
    (n : String) (u v : User) (us : List User)
    → UniqueIds us
    → find (has_name n) us ≡ some v
    → u.id ≡ v.id
    → u.username ≡ v.username
    → find (has_name n) (put_user u us) ≡ some u
unfolding put_user
find-name-put_self n u v [] k h i e = cc
find-name-put_self n u v (w ∷ us) k h i e =
    ground (arith, find-name-put_self n u v us k.1, find-name_id n us {v = v} k.1)

pub find-name-remove_self :
    (n : String) (v : User) (us : List User)
    → UniqueNames us
    → find (has_name n) us ≡ some v
    → find (has_name n) (remove_user v.id us) ≡ none
unfolding remove_user
find-name-remove_self n v [] k h = cc
find-name-remove_self n v (w ∷ us) k h = ground (
  arith,
  find-name-remove_self n v us k.1,
  find-keep (has_name n) (λ (u : User). not (has_id v.id u)) us,
  eq_iff w.username n,
  eq_iff v.username n,
)
