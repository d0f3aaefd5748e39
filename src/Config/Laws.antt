-- ===== src/Config/Laws.antt =====
-- When the program starts with a configuration.
use computing_api.Base.{
  All, Bool, Bool-cases, List, String, [], ap, bind-eq-ok, false, if◌then◌else◌, inl, inr, not, ok,
  ok-injective, panic, refl, true, wrap, wrapped-eq-ok, ◌↔◌, ◌∙◌, ◌∷◌, ◌≡◌,
}
use computing_api.Config.{
  Decoded, GatewayConfig, Toml, fields_are_given, init_config, required_fields,
  required_fields_are_given,
}

fields_are_given_iff :
    (is_defined : List String → Bool) (fields : List (List String))
    → (fields_are_given is_defined fields ≡ ok true) ↔ All (λ v. is_defined v ≡ true) fields
unfolding fields_are_given
fields_are_given_iff is_defined [] = (λ h. tt, λ h. refl)
fields_are_given_iff is_defined (v ∷ fields) =
    let (from, to) = fields_are_given_iff is_defined fields in
    elim (Bool-cases (is_defined v)) [
      | inl there ↦ rw there (λ h. (refl, from h), λ (_, rest). to rest)
      | inr missing ↦ rw missing (λ h. absurd (cc), λ (yes_there, rest). absurd (cc))
    ]

given_of :
    (given : Bool) (found conf : GatewayConfig)
    → (if not given then panic "log.Fatal: Required fields not given" else ok found) ≡ ok conf
    → (given ≡ true) × (found ≡ conf)
given_of true found conf h = (refl, ok-injective h)
given_of false found conf h = cc

-- The program starts with a configuration exactly when the file can be read as one and has every
-- required field.
init_config_iff :
    (toml : Toml) (s : toml.State) (conf : GatewayConfig)
    → (init_config toml s ≡ ok conf) ↔ (
        (loaded : Decoded) × (toml.decode_file s ≡ ok loaded)
        × All (λ v. loaded.is_defined v ≡ true) required_fields
        × (loaded.config ≡ conf))
unfolding init_config required_fields_are_given
init_config_iff toml s conf = (
  λ h.
      let (loaded, read, h1) =
        wrapped-eq-ok (toml.decode_file s) (wrap "failed load config file") _ h in
      let (given, checked, h2) = bind-eq-ok (required_fields_are_given loaded.is_defined) _ h1 in
      let (all_there, same) = given_of given loaded.config conf h2 in
      (
        loaded,
        read,
        (fields_are_given_iff loaded.is_defined required_fields).0 (checked ∙ ap ok all_there),
        same,
      ),
  λ (loaded, read, all_there, same).
      rw (read, (fields_are_given_iff loaded.is_defined required_fields).1 all_there, same) refl,
)
