-- ===== src/Setup/Tests.antt =====
-- Two brokers, and the options in two environments.
use high_load_ledger.Prelude.{◌≡◌, refl, true, false, none, some, [], ◌∷◌}
use high_load_ledger.Setup.Config.{split_addrs}
use high_load_ledger.Setup.Logger.{
  new_logger, development, warn_text, debug_level, info_level, warn_level,
}

-- "a:1" and "b:2"
two_brokers :
    split_addrs (97 ∷ 58 ∷ 49 ∷ 44 ∷ 98 ∷ 58 ∷ 50 ∷ [])
    ≡ (97 ∷ 58 ∷ 49 ∷ []) ∷ (98 ∷ 58 ∷ 50 ∷ []) ∷ []
unfolding split_addrs
two_brokers = refl

default_logger :
    new_logger [] [] none none ≡ record { level = info_level; add_source = false; is_json = true }
unfolding new_logger
default_logger = refl

development_logger :
    new_logger development [] none (some true)
    ≡ record { level = debug_level; add_source = true; is_json = true }
unfolding new_logger
development_logger = refl

warn_logger :
    new_logger development warn_text (some false) none
    ≡ record { level = warn_level; add_source = false; is_json = false }
unfolding new_logger
warn_logger = refl
