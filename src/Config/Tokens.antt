-- ===== src/Config/Tokens.antt =====
-- From key and value tokens to the answers of GetConfig.
use distributed_disk.Common.{
  String, ◌≡◌, refl, ap, ◌∙◌, Option, none, some, List, [], ◌∷◌, ◌++◌, string_eq, if◌then◌else◌,
  ◌==◌,
}
use distributed_disk.Common.Exec.{ok, fault, assert_failed}
use distributed_disk.Common.Dict.{lookup, insert, lookup-insert}
use distributed_disk.Config.{ConfigMap, read_tokens, read_config, get_config, found}

-- The tokens of a list of entries.
abbrev pub tokens_of : List (String × String) → List String
tokens_of [] = []
tokens_of ((key, value) ∷ entries) = key ∷ value ∷ tokens_of entries

-- The value given last for a key.
unfoldable pub last_value : Option String → String → List (String × String) → Option String
last_value old k [] = old
last_value old k ((key, value) ∷ entries) =
    last_value (if key == k then some value else old) k entries

read_tokens-entries :
    (entries : List (String × String)) (values : ConfigMap)
    → (m : ConfigMap) × (read_tokens (tokens_of entries) values ≡ ok m)
      × ((k : String) → lookup k m ≡ last_value (lookup k values) k entries)
unfolding read_tokens last_value
read_tokens-entries [] values = (values, refl, λ k. refl)
read_tokens-entries ((key, value) ∷ entries) values =
    let (m, e, l) = read_tokens-entries entries (insert key value values) in
    (m, e, λ k. l k ∙ ap (λ o. last_value o k entries) (lookup-insert key k value values))

-- A file that is cut into keys and values is read, and GetConfig then answers each key with the
-- value given last for it, and throws for a key that is not in the file.
pub read_config-entries :
    (tokenize : String → List String) (text : String) (entries : List (String × String))
    → tokenize text ≡ tokens_of entries
    → (m : ConfigMap) × (read_config tokenize text ≡ ok m)
      × ((k : String) → get_config k m ≡ found (last_value none k entries))
unfolding read_config get_config lookup
read_config-entries tokenize text entries cut =
    let (m, e, l) = read_tokens-entries entries [] in (m, rw cut e, λ k. ap found (l k))

-- A key with no value behind it, such as one that ends the file, stops the program.
pub read_tokens_odd :
    (entries : List (String × String)) (key : String) (values : ConfigMap)
    → read_tokens (tokens_of entries ++ key ∷ []) values ≡ fault assert_failed
unfolding read_tokens
read_tokens_odd [] key values = refl
read_tokens_odd ((k, value) ∷ entries) key values =
    read_tokens_odd entries key (insert k value values)
