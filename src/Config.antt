-- ===== src/Config.antt =====
-- config_manager/config_manager.hpp and config_manager/config_manager.cpp. The tokens come from
-- boost::tokenizer with the separators ':' and newline; how it cuts a text is a parameter.
pub mod Tokens
use distributed_disk.Common.{String, Option, none, some, List, [], ◌∷◌, string_eq}
use distributed_disk.Common.Exec.{Outcome, ok, fault, assert_failed, config_not_found}
use distributed_disk.Common.Dict.{lookup, insert}

abbrev pub ConfigMap : Type 0
ConfigMap = List (String × String)

-- The loop of ReadConfigFile. After an odd number of tokens the iterator is dereferenced past the
-- end, which boost's assertion stops.
unfoldable pub read_tokens : List String → ConfigMap → Outcome ConfigMap
read_tokens [] values = ok values
read_tokens (key ∷ []) values = fault assert_failed
read_tokens (key ∷ value ∷ tokens) values = read_tokens tokens (insert key value values)

-- ConfigManager::ReadConfigFile on the text of the file
unfoldable pub read_config : (String → List String) → String → Outcome ConfigMap
unfolding read_tokens
read_config tokenize text = read_tokens (tokenize text) []

unfoldable pub found : Option String → Outcome String
found none = fault config_not_found
found (some value) = ok value

-- ConfigManager::GetConfig
unfoldable pub get_config : String → ConfigMap → Outcome String
unfolding found
get_config key values = found (lookup key values)
