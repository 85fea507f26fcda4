-- ===== src/Config/Reload.antt =====
-- What a reload does to the configuration.
use smtprelay.Base.{
  ◌≡◌, ◌⊎◌, inl, inr, Bool, true, false, none, some, Bytes, arith, refl, Option-cases,
}
use smtprelay.Base.Outcome.{ok, err}
use smtprelay.Config.{Conf, malformed, unreadable, new_conf, Disk, load, Flags, reload_config}

module _ (disk : Disk) (flags : Flags) where
  -- How `Load` ends on the main file, and what it leaves in an empty record.
  abbrev pub Loads : Conf → Type 0
  Loads next =
      ((disk.read_file flags.main_config_file_path ≡ none)
        × (load disk flags.main_config_file_path new_conf ≡ (err unreadable, new_conf))
        × (next ≡ new_conf))
      ⊎ ((file : Bytes) × (disk.read_file flags.main_config_file_path ≡ some file)
          × (((disk.unmarshal file new_conf ≡ (false, next))
                × (load disk flags.main_config_file_path new_conf ≡ (err malformed, next)))
              ⊎ ((disk.unmarshal file new_conf ≡ (true, next))
                  × (load disk flags.main_config_file_path new_conf ≡ (ok tt, next)))))

  decoded :
      (filename file : Bytes) (conf : Conf) (c : Bool × Conf)
      → disk.read_file flags.main_config_file_path ≡ some file
      → disk.unmarshal file new_conf ≡ c
      → Loads (reload_config disk flags filename conf)
  unfolding load reload_config
  decoded filename file conf (false, next) r u = inr (file, r, inl (ground arith, ground arith))
  decoded filename file conf (true, next) r u = inr (file, r, inr (ground arith, ground arith))

  -- The configuration after a reload does not depend on the one before, nor on the file that was asked
  -- for: it is what `Load` leaves of the main file in an empty record, also when `Load` gives an
  -- error. If the file cannot be read, it is the empty record.
  pub reload_config_lem :
      (filename : Bytes) (conf : Conf) → Loads (reload_config disk flags filename conf)
  unfolding reload_config load
  reload_config_lem filename conf =
      elim (Option-cases (disk.read_file flags.main_config_file_path)) [
        | inl missing ↦ inl (missing, ground arith, ground arith)
        | inr (file, r) ↦ decoded filename file conf (disk.unmarshal file new_conf) r refl
      ]
