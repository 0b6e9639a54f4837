-- ===== src/Setup/Logger.antt =====
-- `logger.New`: the options of the handler.
use high_load_ledger.Prelude.{
  Bool, true, false, ◌&&◌, Option, none, some, [], ◌∷◌, ◌==◌, if◌then◌else◌,
}
use high_load_ledger.Wire.{Bytes}

pub data Level : Type 0 where
  debug_level info_level warn_level error_level : Level

pub record HandlerOptions : Type 0 where
  pub level : Level
  pub add_source : Bool
  pub is_json : Bool

unfoldable pub same_text : Bytes → Bytes → Bool
same_text [] [] = true
same_text [] (d ∷ t) = false
same_text (c ∷ s) [] = false
same_text (c ∷ s) (d ∷ t) = c == d && same_text s t

-- "development", "debug", "info", "warn" and "error"
abbrev pub development : Bytes
development = 100 ∷ 101 ∷ 118 ∷ 101 ∷ 108 ∷ 111 ∷ 112 ∷ 109 ∷ 101 ∷ 110 ∷ 116 ∷ []

abbrev pub debug_text : Bytes
debug_text = 100 ∷ 101 ∷ 98 ∷ 117 ∷ 103 ∷ []

abbrev pub info_text : Bytes
info_text = 105 ∷ 110 ∷ 102 ∷ 111 ∷ []

abbrev pub warn_text : Bytes
warn_text = 119 ∷ 97 ∷ 114 ∷ 110 ∷ []

abbrev pub error_text : Bytes
error_text = 101 ∷ 114 ∷ 114 ∷ 111 ∷ 114 ∷ []

-- The `switch`; any other text is `info`.
unfoldable pub level_of : Bytes → Level
unfolding same_text
level_of text =
    if same_text text debug_text
    then debug_level
    else (if same_text text warn_text
        then warn_level
        else (if same_text text error_text then error_level else info_level))

abbrev pub given_or : {A : Type 0} → Option A → A → A
given_or none default = default
given_or (some given) default = given

abbrev text_or : Bytes → Bytes → Bytes
text_or [] default = default
text_or (c ∷ s) default = c ∷ s

-- What is set explicitly decides; the rest depends on the environment.
unfoldable pub new_logger : Bytes → Bytes → Option Bool → Option Bool → HandlerOptions
unfolding same_text level_of
new_logger env log_level add_source is_json =
    let developing = same_text env development in
    record {
      level = level_of (text_or log_level (if developing then debug_text else info_text));
      add_source = given_or add_source developing;
      is_json = given_or is_json (if developing then false else true);
    }
