-- ===== src/Databases.antt =====
-- The handlers of backend/api/routers/databases.py that show and update the entries of databases, with
-- the models of backend/api/models/database.py and the two functions of `ConfigManager` in
-- backend/config.py that they call. An update can store null under any key, so the entries here are
-- the untyped dicts that they are in the program. The order of a dict is not kept.
pub mod Merged
mod Tests
use dbmanager.Base.{
  ℕ, String, Bool, true, false, Option, none, some, List, [], ◌∷◌, ◌&&◌, not, any, str_eq, ◌==◌,
  text_is_empty, if◌then◌else◌,
}
use dbmanager.Base.Outcome.{Reply, ok, http}
use dbmanager.Json.{
  Json, null, bool, num, str, list, tuple, dict, Items, nil, cons, Fields, end, field,
}
use dbmanager.Schedules.{valid_providers}

unfoldable pub dict_get : String → Fields → Option Json
dict_get k end = none
dict_get k (field l v fs) = let rest = dict_get k fs in if str_eq l k then some v else rest

unfoldable pub dict_set : String → Json → Fields → Fields
dict_set k v end = field k v end
dict_set k v (field l w fs) =
    let rest = dict_set k v fs in if str_eq l k then field l v fs else field l w rest

-- `old.update(new)`
unfoldable pub dict_update : Fields → Fields → Fields
dict_update old end = old
dict_update old (field k v new) = dict_set k v (dict_update old new)

-- `d.pop(key, None)`
unfoldable pub dict_pop : String → Fields → Fields
dict_pop k end = end
dict_pop k (field l v fs) = let rest = dict_pop k fs in if str_eq l k then rest else field l v rest

-- An entry of `databases`: its id, and the dict of its other keys.
pub record Entry : Type 0 where
  pub id : ℕ
  pub fields : Fields

-- The entries in memory and in the file as it was last written.
pub record Store : Type 0 where
  pub databases : List Entry
  pub disk : List Entry

-- `ConfigManager.get_database`
unfoldable pub find_entry : ℕ → List Entry → Option Entry
find_entry i [] = none
find_entry i (d ∷ ds) = let rest = find_entry i ds in if d.id == i then some d else rest

-- `ConfigManager.update_database`: the first entry with the id is replaced, and the file is written.
unfoldable pub replace_entry : ℕ → Fields → List Entry → List Entry
replace_entry i new [] = []
replace_entry i new (d ∷ ds) =
    let rest = replace_entry i new ds in
    if d.id == i then record { id = i; fields = new } ∷ ds else d ∷ rest

unfoldable pub put_entry : ℕ → Fields → Store → Store
put_entry i new st =
    let ds = replace_entry i new st.databases in record { databases = ds; disk = ds }

pub record DatabaseResponse : Type 0 where
  pub id : ℕ
  pub name : String
  pub provider : String
  pub params : Fields
  pub s3_enabled : Bool
  pub s3_bucket_id : Option ℕ
  pub retention : ℕ
  pub s3_retention : ℕ

-- The value of a key as a response has it; `none` is a validation error. A key that is missing has its
-- default, null is an error but for the bucket. The conversions that pydantic makes of values of
-- another type are left out.
abbrev pub as_text : Option Json → Option String
as_text (some (str s)) = some s
as_text _ = none

abbrev pub as_dict : Option Json → Option Fields
as_dict (some (dict fs)) = some fs
as_dict _ = none

abbrev pub as_flag : Option Json → Option Bool
as_flag none = some false
as_flag (some (bool b)) = some b
as_flag _ = none

abbrev pub as_number : Option Json → Option ℕ
as_number none = some 0
as_number (some (num n)) = some n
as_number _ = none

abbrev pub as_bucket : Option Json → Option (Option ℕ)
as_bucket none = some none
as_bucket (some null) = some none
as_bucket (some (num n)) = some (some n)
as_bucket _ = none

infixl 5 ◌>>=◌
abbrev ◌>>=◌ : {A B : Type 0} → Option A → (A → Option B) → Option B
o >>= f = elim o [ none ↦ none | some a ↦ f a ]

-- `DatabaseResponse.model_validate` with its validator `remove_password`
unfoldable pub validated : ℕ → Fields → Option DatabaseResponse
validated i fs = do
  name ← as_text (dict_get "name" fs)
  provider ← as_text (dict_get "provider" fs)
  params ← as_dict (dict_get "params" fs)
  s3_enabled ← as_flag (dict_get "s3_enabled" fs)
  s3_bucket_id ← as_bucket (dict_get "s3_bucket_id" fs)
  retention ← as_number (dict_get "retention" fs)
  s3_retention ← as_number (dict_get "s3_retention" fs)
  some (record {
    id = i;
    name = name;
    provider = provider;
    params = dict_pop "password" params;
    s3_enabled = s3_enabled;
    s3_bucket_id = s3_bucket_id;
    retention = retention;
    s3_retention = s3_retention;
  })

-- The server answers a validation error of a response with 500.
unfoldable pub response : Entry → Reply DatabaseResponse
response d = elim (validated d.id d.fields) [ none ↦ http 500 | some r ↦ ok r ]

unfoldable pub responses : List Entry → Reply (List DatabaseResponse)
responses [] = ok []
responses (d ∷ ds) = elim (response d) [
  | http c ↦ http c
  | ok r ↦ elim (responses ds) [ http c ↦ http c | ok rs ↦ ok (r ∷ rs) ]
]

unfoldable pub list_databases : Store → Reply (List DatabaseResponse)
list_databases st = responses st.databases

unfoldable pub get_database : ℕ → Store → Reply DatabaseResponse
get_database i st = elim (find_entry i st.databases) [ none ↦ http 404 | some d ↦ response d ]

-- `none` is a field that the request does not set, and `some none` one that it sets to null.
pub record DatabaseUpdate : Type 0 where
  pub name : Option (Option String)
  pub provider : Option (Option String)
  pub params : Option (Option Fields)
  pub s3_enabled : Option (Option Bool)
  pub s3_bucket_id : Option (Option ℕ)
  pub retention : Option (Option ℕ)
  pub s3_retention : Option (Option ℕ)

-- One field of `model_dump(exclude_unset=True)`.
unfoldable pub dumped : {A : Type 0} → String → (A → Json) → Option (Option A) → Fields → Fields
dumped k f none rest = rest
dumped k f (some none) rest = field k null rest
dumped k f (some (some a)) rest = field k (f a) rest

unfoldable pub model_dump : DatabaseUpdate → Fields
model_dump b = dumped "name" str b.name (
    dumped "provider" str b.provider (
      dumped "params" dict b.params (
        dumped "s3_enabled" bool b.s3_enabled (
          dumped "s3_bucket_id" num b.s3_bucket_id
            (dumped "retention" num b.retention (dumped "s3_retention" num b.s3_retention end))))))

-- The truth value of `dict.get(key)`.
abbrev pub truthy : Option Json → Bool
truthy (some (bool b)) = b
truthy (some (num n)) = not (n == 0)
truthy (some (str s)) = not (text_is_empty s)
truthy (some (list (cons x xs))) = true
truthy (some (tuple (cons x xs))) = true
truthy (some (dict (field k v fs))) = true
truthy _ = false

-- The parameters go into the old ones, where both are there; `none` is the exception for null and for
-- old ones that are no dict.
unfoldable pub merge_params : Option Json → Option Json → Fields → Option Fields
merge_params (some (dict new)) (some (dict old)) update =
    some (dict_set "params" (dict (dict_update old new)) update)
merge_params (some new) (some old) update = none
merge_params _ _ update = some update

unfoldable pub update_database : ℕ → DatabaseUpdate → Store → Reply DatabaseResponse × Store
update_database i body st = elim (find_entry i st.databases) [
  | none ↦ (http 404, st)
  | some d ↦
      let update = model_dump body in
      if not (elim body.provider [ some (some p) ↦ any (str_eq p) valid_providers | _ ↦ true ])
      then (http 400, st)
      else elim (merge_params (dict_get "params" update) (dict_get "params" d.fields) update) [
        | none ↦ (http 500, st)
        | some update' ↦
            let new = dict_update d.fields update' in
            let st' = put_entry i new st in
            if truthy (dict_get "s3_enabled" new) && not (truthy (dict_get "s3_bucket_id" new))
            then (http 400, st)
            else elim (find_entry i st'.databases) [
              | none ↦ (http 500, st')
              | some d' ↦ (response d', st')
            ]
      ]
]
