-- ===== src/Command/Source.antt =====
-- The source of the configuration.
use interlock_old.Prelude.{
  ◌≡◌, ◌≢◌, refl, sym, ◌∙◌, ◌⊎◌, inl, inr, String, true, false, Option, ◌==◌, eq_iff, Bool-cases,
}
use interlock_old.Go.Outcome.{Outcome, ok, >>=-eq-ok, ok-injective}
use interlock_old.Config
use interlock_old.Config.{
  set_config_defaults, set_all_defaults, set_nginx_config_defaults, or_int, or_text, parse_config,
}
use interlock_old.Command.{
  default_config, kv_config_key, Store, Arguments, Outside, get_kv_store, kv_tls, stored_value,
  not_missing, stored_config, discovered, or_file, config_text, spec_config,
}

module _ {Tls : Type 0} (outside : Outside Tls) (a : Arguments) where
  -- A store is reached at the address of --discovery.
  pub record IsReached (kv : Store) : Type 0 where
    pub asked : a.discovery ≢ ""
    pub tls : Option Tls
    pub opened : get_kv_store outside a.discovery tls ≡ ok kv

  -- Where a text of a configuration comes from.
  pub data ComesFrom (text : String) : Type 0 where
    key :
        (kv : Store)
        → IsReached kv
        → kv.exists kv_config_key ≡ ok true
        → kv.get kv_config_key ≡ ok text
        → ComesFrom text
    default :
        (kv : Store)
        → IsReached kv
        → (kv.exists kv_config_key ≡ ok false) ⊎ (kv.get kv_config_key ≡ ok "")
        → text ≡ default_config
        → ComesFrom text
    environment : a.discovery ≡ "" → text ≡ a.env_config → ComesFrom text
    file :
        a.discovery ≡ ""
        → a.env_config ≡ ""
        → a.config ≢ ""
        → outside.read_file a.config ≡ ok text
        → ComesFrom text

  not_empty : (s : String) → (s == "") ≡ false → s ≢ ""
  not_empty s h e = cc (h, (eq_iff s "").1 e)

  stored_config-ComesFrom :
      (kv : Store) (text : String)
      → IsReached kv
      → stored_config kv ≡ ok text
      → ComesFrom text × (text ≢ "")
  unfolding stored_config stored_value
  stored_config-ComesFrom kv text reached h =
      let (exists, answered, rest) = >>=-eq-ok (kv.exists kv_config_key) _ h in
      elim (Bool-cases exists) [
        | inr gone ↦
            let e : default_config ≡ text = ok-injective (rw gone at rest) in
            (default kv reached (inl (rw (gone) at answered)) (sym e), λ empty. cc (e, empty))
        | inl there ↦
            let (value, got, built) = >>=-eq-ok (kv.get kv_config_key) _ (rw there at rest) in
            elim (Bool-cases (value == "")) [
              | inl empty ↦
                  let e : default_config ≡ text = ok-injective (rw empty at built) in
                  (
                    default kv reached (inr (rw ((eq_iff value "").0 empty) at got)) (sym e),
                    λ empty'. cc (e, empty'),
                  )
              | inr full ↦
                  let e : value ≡ text = ok-injective (rw full at built) in
                  (
                    key kv reached (rw there at answered) (rw e at got),
                    rw e at (not_empty value full),
                  )
            ]
      ]

  discovered-cases :
      (text : String)
      → discovered outside a ≡ ok text
      → ((a.discovery ≡ "") × (text ≡ a.env_config)) ⊎ (ComesFrom text × (text ≢ ""))
  unfolding discovered
  discovered-cases text h = elim (Bool-cases (a.discovery == "")) [
    | inl unset ↦
        inl ((eq_iff a.discovery "").0 unset, sym (ok-injective (rw (unset, discovered) at h)))
    | inr set ↦
        let (tls, _, reached) = >>=-eq-ok (kv_tls outside a) _ (rw (set, discovered) at h) in
        let (kv, opened, stored) = >>=-eq-ok (get_kv_store outside a.discovery tls) _ reached in
        inr (
          stored_config-ComesFrom kv text
            (record { asked = not_empty a.discovery set; tls = tls; opened = opened }) stored)
  ]

  -- With a text, the file is not read.
  or_file-full : (first : String) → (first == "") ≡ false → or_file outside a first ≡ ok first
  unfolding or_file
  or_file-full first full = elim (Bool-cases (a.config == "")) [
    | inl unset ↦ rw (or_file, unset) refl
    | inr set ↦ rw (or_file, set, full) refl
  ]

  or_file-cases :
      (first second : String)
      → or_file outside a first ≡ ok second
      → (second ≡ first)
        ⊎ ((first ≡ "") × (a.config ≢ "") × (outside.read_file a.config ≡ ok second))
  unfolding or_file
  or_file-cases first second h = elim (Bool-cases (first == "")) [
    | inr full ↦ inl (sym (ok-injective (rw (or_file-full first full) at h)))
    | inl empty ↦ elim (Bool-cases (a.config == "")) [
      | inl unset ↦ inl (sym (ok-injective (rw (unset, or_file) at h)))
      | inr set ↦
          inr ((eq_iff first "").0 empty, not_empty a.config set, rw (set, empty, or_file) at h)
    ]
  ]

  or_file-ComesFrom :
      (first second : String)
      → discovered outside a ≡ ok first
      → or_file outside a first ≡ ok second
      → ComesFrom second
  or_file-ComesFrom first second found filled = elim (discovered-cases first found) [
    | inl (unset, same) ↦ elim (or_file-cases first second filled) [
      | inl kept ↦ environment unset (kept ∙ same)
      | inr (empty, set, read) ↦ file unset (sym same ∙ empty) set read
    ]
    | inr (source, full) ↦ elim (or_file-cases first second filled) [
      | inl kept ↦ rw kept source
      | inr (empty, set, read) ↦ absurd (full empty)
    ]
  ]

  -- The text of the configuration is not empty. With --discovery it is the value of the key, or the default
  -- where the key is missing or empty, whatever else is set; else it is INTERLOCK_CONFIG, and only
  -- where that is empty the file of --config.
  pub config_text-ComesFrom :
      (text : String) → config_text outside a ≡ ok text → ComesFrom text × (text ≢ "")
  unfolding config_text or_file not_missing
  config_text-ComesFrom text h =
      let (first, found, rest) = >>=-eq-ok (discovered outside a) _ h in
      let (second, filled, kept) = >>=-eq-ok (or_file outside a first) _ rest in
      let source = or_file-ComesFrom first second found filled in
      elim (Bool-cases (second == "")) [
        | inl empty ↦ cc (rw (not_missing, empty) at kept)
        | inr full ↦
            let e : second ≡ text = ok-injective (rw (full, not_missing) at kept) in
            (rw e at source, rw e at (not_empty second full))
      ]

spec_config-IsLoaded :
    set_all_defaults spec_config.rules spec_config.extensions ≡ spec_config.extensions
unfolding spec_config set_all_defaults set_config_defaults set_nginx_config_defaults or_int or_text
spec_config-IsLoaded = refl

-- What spec prints, where the decoder reads back what the encoder prints, is loaded by run as it is: the
-- defaults are in it already.
parse_config-spec_config :
    (encode : Config.Config → String) (decode : String → Outcome Config.Config)
    → decode (encode spec_config) ≡ ok spec_config
    → parse_config decode (encode spec_config) ≡ ok spec_config
unfolding parse_config
parse_config-spec_config encode decode back = rw (back, parse_config, spec_config-IsLoaded) refl
