-- ===== src/Config/Laws.antt =====
-- internal/config/config.go: what is read back after a Save.
use game_forge.Prelude.{
  Bool, true, false, Option, none, some, ok, ◌≡◌, ◌⊎◌, refl, inl, inr, ap, ◌∙◌, sym, Bool-cases,
  Option-cases,
}
use game_forge.Config.{
  Config, ConfigError, encode_failed, write_failed, current_version, default_config, is_zero,
  is_current, checked, ConfigFile, bytes, load, save,
}

checked_current : (c : Config) → c.version ≡ current_version → checked c ≡ ok c
unfolding checked is_zero is_current
checked_current c h =
    ap (λ v. checked (record c { version = v })) h ∙ ap (λ v. ok (record c { version = v })) (sym h)

-- Where the decoder reads back what the encoder wrote, whatever the defaults, a configuration of the
-- current version that was saved without an error is the one that is loaded; a Save that fails before the
-- write leaves what was loaded before.
load-save :
    {B : Type 0} (encode : Config → Option B) (decode : B → Config → Option Config)
    (dir_ok write_ok : Bool) (torn : B) (c : Config) (file : ConfigFile B)
    → ((x d : Config) (b : B) → encode x ≡ some b → decode b d ≡ some x)
    → c.version ≡ current_version
    → (((save encode dir_ok write_ok torn c file).1 ≡ none)
        × (load decode (save encode dir_ok write_ok torn c file).0 ≡ ok c))
      ⊎ ((e : ConfigError) × ((save encode dir_ok write_ok torn c file).1 ≡ some e)
          × (((save encode dir_ok write_ok torn c file).0 ≡ file)
              ⊎ ((dir_ok ≡ true)
                  × (write_ok ≡ false)
                  × ((save encode dir_ok write_ok torn c file).0 ≡ bytes torn))))
unfolding save load
load-save encode decode false write_ok torn c file back v = inr (_, refl, inl refl)
load-save encode decode true write_ok torn c file back v = elim (Option-cases (encode c)) [
  | inl e ↦ inr (encode_failed, rw e refl, inl (rw e refl))
  | inr (b, e) ↦ elim (Bool-cases write_ok) [
    | inr w ↦ inr (write_failed, rw (e, w) refl, inr (refl, w, rw (e, w) refl))
    | inl w ↦ inl (rw (e, w) refl, rw (e, w, back c default_config b e) (checked_current c v))
  ]
]
