-- ===== src/Config/Secrets/Tests.antt =====
-- A configuration with one password, under a cipher that puts a prefix before the text.
use Prim.Native.Char.{code}
use dbmanager.Base.{String, ◌≡◌, refl, arith, Option, none, some, ◌==◌, if◌then◌else◌}
use dbmanager.Base.Text.{begins_with}
use dbmanager.Json.{Json, num, str, list, dict, nil, cons, end, field}
use dbmanager.Config.Secrets.{Fernet, IsFernet, is_sensitive, AllSecrets, saved, loaded}
use dbmanager.Config.Secrets.Roundtrip.{IsPlaintext, IsCiphertext, save-load}

-- `#` stands for the form of a token.
abbrev unhash : String → Option String
unhash String.[] = none
unhash (String.◌∷◌ c s) = if code c == b'#' then some s else none

abbrev hash_fernet : Fernet
hash_fernet = record { encrypt = λ s. String.◌∷◌ "#" s; decrypt = unhash }

hash_fernet-IsFernet : IsFernet hash_fernet
hash_fernet-IsFernet = record { decrypts = λ s. refl; full = λ s. refl }

abbrev config : Json
config = dict (
    field "databases"
      (list (
        cons
          (dict (field "id" (num 1) (field "params" (dict (field "password" (str "pw") end)) end)))
          nil))
      end)

config_plain : AllSecrets hash_fernet (IsPlaintext hash_fernet hash_fernet-IsFernet) config
unfolding is_sensitive begins_with
config_plain = ground arith

save-load_example :
    (loaded hash_fernet (saved hash_fernet config) ≡ config)
    × AllSecrets hash_fernet
        (IsCiphertext hash_fernet hash_fernet-IsFernet)
        (saved hash_fernet config)
save-load_example = save-load hash_fernet hash_fernet-IsFernet config config_plain
