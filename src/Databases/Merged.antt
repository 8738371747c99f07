-- ===== src/Databases/Merged.antt =====
-- What an update of a database keeps and what it sets.
use dbmanager.Base.{
  ℕ, String, ◌≡◌, refl, sym, ap, ◌∙◌, Bool, true, false, Option, none, some, List, [], ◌∷◌, ◌==◌,
  ==_iff, str_eq, eq_iff, arith, Bool-cases, inl, inr, ◌⊎◌, any, ◌&&◌, not, if◌then◌else◌,
}
use mathlib.Core.Path.{subst}
use dbmanager.Base.Outcome.{Reply, http}
use dbmanager.Json.{Json, null, bool, num, str, list, tuple, dict, Fields, end, field}
use dbmanager.Schedules.{valid_providers}
use dbmanager.Databases.{
  dict_get, dict_set, dict_update, Entry, Store, find_entry, replace_entry, put_entry,
  DatabaseResponse, response, DatabaseUpdate, model_dump, merge_params, truthy, update_database,
}

dict_get-dict_set :
    (k l : String) (v : Json) (fs : Fields)
    → dict_get k (dict_set l v fs) ≡ (if str_eq l k then some v else dict_get k fs)
unfolding dict_get dict_set
dict_get-dict_set k l v end = ground arith
dict_get-dict_set k l v (field x w fs) =
    ground (arith, dict_get-dict_set k l v fs, eq_iff x l, eq_iff x k, eq_iff l k)

-- A key has its new value, or else its old one.
abbrev pub either : Option Json → Option Json → Option Json
either (some v) old = some v
either none old = old

dict_get-dict_update :
    (k : String) (old new : Fields)
    → dict_get k (dict_update old new) ≡ either (dict_get k new) (dict_get k old)
unfolding dict_get dict_update
dict_get-dict_update k old end = refl
dict_get-dict_update k old (field l v new) =
    ground (arith, dict_get-dict_set k l v (dict_update old new), dict_get-dict_update k old new)

-- One of the parameters, if they are a dict.
abbrev pub param : String → Option Json → Option Json
param p (some (dict fs)) = dict_get p fs
param p other = none

-- The parameters are refused, not set, or merged.
merge_params-cases :
    (new : Option Json) (old update : Fields)
    → (merge_params new (some (dict old)) update ≡ none)
      ⊎ ((new ≡ none) × (merge_params new (some (dict old)) update ≡ some update))
      ⊎ ((fs : Fields) × (new ≡ some (dict fs))
          × (merge_params new (some (dict old)) update
              ≡ some (dict_set "params" (dict (dict_update old fs)) update)))
unfolding merge_params
merge_params-cases none old update = inr (inl (refl, refl))
merge_params-cases (some (dict fs)) old update = inr (inr (fs, refl, refl))
merge_params-cases (some null) old update = inl refl
merge_params-cases (some (bool b)) old update = inl refl
merge_params-cases (some (num n)) old update = inl refl
merge_params-cases (some (str s)) old update = inl refl
merge_params-cases (some (list xs)) old update = inl refl
merge_params-cases (some (tuple xs)) old update = inl refl

-- What the new dict has: under another key than the parameters the value that the request sets, null
-- included, or else the old one; and each parameter likewise.
pub record IsMerged (k p : String) (sent old new : Fields) : Type 0 where
  pub other : dict_get k new ≡ either (dict_get k sent) (dict_get k old)
  pub parameter :
      param p (dict_get "params" new)
      ≡ either (param p (dict_get "params" sent)) (param p (dict_get "params" old))

module _ (k p : String) (other_key : str_eq "params" k ≡ false) (sent old o : Fields)
    (there : dict_get "params" old ≡ some (dict o)) where
  unset-IsMerged : dict_get "params" sent ≡ none → IsMerged k p sent old (dict_update old sent)
  unset-IsMerged e = record {
    other = dict_get-dict_update k old sent;
    parameter = ground (arith, dict_get-dict_update "params" old sent);
  }

  set-IsMerged :
      (fs : Fields)
      → dict_get "params" sent ≡ some (dict fs)
      → IsMerged k p sent old (dict_update old (dict_set "params" (dict (dict_update o fs)) sent))
  set-IsMerged fs e =
      let v = dict (dict_update o fs) in
      record {
        other = ground (
          arith,
          dict_get-dict_update k old (dict_set "params" v sent),
          dict_get-dict_set k "params" v sent,
        );
        parameter =
            let set = dict_get-dict_set "params" "params" v sent in
            let there_now : dict_get "params" (dict_update old (dict_set "params" v sent))
                ≡ some v =
              ground (
                arith,
                dict_get-dict_update "params" old (dict_set "params" v sent),
                set,
                eq_iff "params" "params",
              ) in
            ap (param p) there_now
            ∙ dict_get-dict_update p o fs
            ∙ sym (
                ap (λ x. either (param p x) (param p (dict_get "params" old))) e
                ∙ ap (λ x. either (dict_get p fs) (param p x)) there);
      }

find_entry-replace_entry :
    (i j : ℕ) (new : Fields) (ds : List Entry) (d : Entry)
    → find_entry i ds ≡ some d
    → find_entry j (replace_entry i new ds)
      ≡ (if i == j then some (record { id = i; fields = new }) else find_entry j ds)
unfolding find_entry replace_entry
find_entry-replace_entry i j new [] d e = cc
find_entry-replace_entry i j new (x ∷ ds) d e = ground (
  arith,
  find_entry-replace_entry i j new ds d,
  ==_iff i j,
  ==_iff x.id i,
  ==_iff x.id j,
  ==_iff i i,
)

-- What an update leaves: all as it was, with an error; or the merged entry under its id in memory and
-- in the file, with the others as they were, and then the reply is what the response makes of it.
abbrev pub IsUpdate :
    ℕ
    → ℕ
    → String
    → String
    → DatabaseUpdate
    → Entry
    → Store
    → Reply DatabaseResponse × Store
    → Type 0
IsUpdate i j k p body old st x =
    ((c : ℕ) × (x.0 ≡ http c) × (x.1 ≡ st))
    ⊎ ((new : Fields) × (x.0 ≡ response (record { id = i; fields = new }))
        × (find_entry j x.1.databases ≡ (
            if i == j then some (record { id = i; fields = new }) else find_entry j st.databases))
        × (x.1.disk ≡ x.1.databases)
        × IsMerged k p (model_dump body) old.fields new)

saved :
    (i j : ℕ) (k p : String) (body : DatabaseUpdate) (old : Entry) (st : Store) (new : Fields)
    → find_entry i st.databases ≡ some old
    → IsMerged k p (model_dump body) old.fields new
    → IsUpdate i j k p body old st (response (record { id = i; fields = new }), put_entry i new st)
unfolding put_entry
saved i j k p body old st new e m =
    inr (new, refl, find_entry-replace_entry i j new st.databases old e, refl, m)

-- The test of the provider, and the one of the target.
abbrev provider_known : DatabaseUpdate → Bool
provider_known body = elim body.provider [
  | some (some p) ↦ any (str_eq p) valid_providers
  | _ ↦ true
]

abbrev lacks_bucket : Fields → Bool
lacks_bucket new = truthy (dict_get "s3_enabled" new) && not (truthy (dict_get "s3_bucket_id" new))

module _ (i j : ℕ) (k p : String) (body : DatabaseUpdate) (old : Entry) (st : Store)
    (e : find_entry i st.databases ≡ some old) where
  update_database-saved :
      (u : Fields)
      → provider_known body ≡ true
      → merge_params
          (dict_get "params" (model_dump body))
          (dict_get "params" old.fields)
          (model_dump body)
        ≡ some u
      → lacks_bucket (dict_update old.fields u) ≡ false
      → update_database i body st ≡ (
        response (record { id = i; fields = dict_update old.fields u }),
        put_entry i (dict_update old.fields u) st,
      )
  unfolding update_database put_entry
  update_database-saved u known m b =
      let new = dict_update old.fields u in
      rw (update_database, e, known, m, b)
        (ground (arith, find_entry-replace_entry i i new st.databases old e, ==_iff i i))

  update_database-failed :
      provider_known body ≡ true
      → merge_params
          (dict_get "params" (model_dump body))
          (dict_get "params" old.fields)
          (model_dump body)
        ≡ none
      → update_database i body st ≡ (http 500, st)
  unfolding update_database
  update_database-failed known m = rw (update_database, e, known, m) refl

  update_database-unknown : provider_known body ≡ false → update_database i body st ≡ (http 400, st)
  unfolding update_database
  update_database-unknown bad = rw (update_database, e, bad) refl

  update_database-refused :
      (u : Fields)
      → provider_known body ≡ true
      → merge_params
          (dict_get "params" (model_dump body))
          (dict_get "params" old.fields)
          (model_dump body)
        ≡ some u
      → lacks_bucket (dict_update old.fields u) ≡ true
      → update_database i body st ≡ (http 400, st)
  unfolding update_database
  update_database-refused u known m b = rw (update_database, e, known, m, b) refl

  merged-IsUpdate :
      (u : Fields)
      → provider_known body ≡ true
      → merge_params
          (dict_get "params" (model_dump body))
          (dict_get "params" old.fields)
          (model_dump body)
        ≡ some u
      → IsMerged k p (model_dump body) old.fields (dict_update old.fields u)
      → IsUpdate i j k p body old st (update_database i body st)
  merged-IsUpdate u known m merged = elim (Bool-cases (lacks_bucket (dict_update old.fields u))) [
    | inl b ↦ inl (
      400,
      ap (λ x. x.0) (update_database-refused u known m b),
      ap (λ x. x.1) (update_database-refused u known m b),
    )
    | inr b ↦
        subst (IsUpdate i j k p body old st) (sym (update_database-saved u known m b))
          (saved i j k p body old st (dict_update old.fields u) e merged)
  ]

  -- An update of an entry whose parameters are a dict ends in an error and leaves everything as it was,
  -- or puts the merged entry under its id into memory and into the file, null included where the
  -- request sets it, with the other entries as they were. The merged entry has every key that the
  -- request sets and the old value of each other, and so for the parameters one by one. The reply is
  -- then what the response makes of it.
  pub update_database-merges :
      (o : Fields)
      → str_eq "params" k ≡ false
      → dict_get "params" old.fields ≡ some (dict o)
      → IsUpdate i j k p body old st (update_database i body st)
  update_database-merges o other there = elim (Bool-cases (provider_known body)) [
    | inr b ↦
        inl (
          400,
          ap (λ x. x.0) (update_database-unknown b),
          ap (λ x. x.1) (update_database-unknown b),
        )
    | inl known ↦
        elim (merge_params-cases (dict_get "params" (model_dump body)) o (model_dump body)) [
          | inl m ↦ inl (
            500,
            ap (λ x. x.0) (update_database-failed known (rw there m)),
            ap (λ x. x.1) (update_database-failed known (rw there m)),
          )
          | inr (inl (unset, m)) ↦
              merged-IsUpdate (model_dump body) known (rw there m)
                (unset-IsMerged k p other (model_dump body) old.fields o there unset)
          | inr (inr (fs, set, m)) ↦
              merged-IsUpdate (dict_set "params" (dict (dict_update o fs)) (model_dump body)) known
                (rw there m) (set-IsMerged k p other (model_dump body) old.fields o there fs set)
        ]
  ]
