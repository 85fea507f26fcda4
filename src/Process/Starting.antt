-- ===== src/Process/Starting.antt =====
-- When `main` gets as far as the listeners.
use smtprelay.Base.{
  ◌≡◌, ◌⊎◌, refl, ap, ◌↔◌, sym, ◌∙◌, inl, inr, if◌then◌else◌, Bool, true, false, Option, none, some,
  List, [], Bytes,
}
use smtprelay.Base.Outcome.{Outcome, ok, err, panicked, diverged, blocked}
use smtprelay.Config.{Conf, ConfError, Flags, new_conf, load}
use smtprelay.Dkim.{DkimLibrary, Key, dkim_load_key_repository}
use mathlib.Core.Path.{subst}
use smtprelay.Process.{
  runs, Machine, get_flags, main, with_flags, with_conf, with_keys, listening, Process,
}

module _ {C S : Type 0} (lib : DkimLibrary C S) (machine : Machine) where
  -- The keys are there, if they are wanted.
  abbrev pub HasKeys : Conf → List (Bytes × Key C S) → Type 0
  HasKeys conf keys =
      ((conf.dkim_enabled ≡ false) × (keys ≡ []))
      ⊎ ((conf.dkim_enabled ≡ true)
          × (dkim_load_key_repository lib (machine.key_dir conf.dkim_key_dir) ≡ some keys))

  -- What a process begins with.
  pub record Ready (work_dir : Bytes) (p : Process C S) : Type 0 where
    pub flags : get_flags machine.is_missing work_dir ≡ some p.flags
    pub conf : load machine.disk p.flags.main_config_file_path new_conf ≡ (ok tt, p.conf)
    pub keys : HasKeys p.conf p.keys
    pub begun : p ≡ listening lib p.flags p.conf p.keys

  keys_ready :
      (flags : Flags) (conf : Conf) (o : Option (List (Bytes × Key C S))) (p : Process C S)
      → with_keys lib flags conf o ≡ runs p
      → (keys : List (Bytes × Key C S)) × (o ≡ some keys) × (p ≡ listening lib flags conf keys)
  keys_ready flags conf none p run = cc
  keys_ready flags conf (some keys) p run = (keys, refl, cc)

  -- With what `Load` left.
  abbrev Begins : Flags → Conf → Process C S → Type 0
  Begins flags conf p =
      (keys : List (Bytes × Key C S)) × HasKeys conf keys × (p ≡ listening lib flags conf keys)

  enabled_ready :
      (flags : Flags) (conf : Conf) (enabled : Bool) (p : Process C S)
      → conf.dkim_enabled ≡ enabled
      → (if enabled
          then with_keys lib flags conf
              (dkim_load_key_repository lib (machine.key_dir conf.dkim_key_dir))
          else runs (listening lib flags conf []))
        ≡ runs p
      → Begins flags conf p
  enabled_ready flags conf true p on run =
      let (keys, there, same) =
        keys_ready flags conf (dkim_load_key_repository lib (machine.key_dir conf.dkim_key_dir)) p
          run in
      (keys, inr (on, there), same)
  enabled_ready flags conf false p off run = ([], inl (off, refl), cc)

  conf_ready :
      (flags : Flags) (l : Outcome ConfError (Unit {0}) × Conf) (p : Process C S)
      → with_conf lib machine flags l ≡ runs p
      → (conf : Conf) × (l ≡ (ok tt, conf)) × Begins flags conf p
  conf_ready flags (ok u, conf) p run =
      (conf, refl, enabled_ready flags conf conf.dkim_enabled p refl run)
  conf_ready flags (err e, conf) p run = cc
  conf_ready flags (panicked, conf) p run = cc
  conf_ready flags (diverged, conf) p run = cc
  conf_ready flags (blocked, conf) p run = cc

  flags-Ready :
      (work_dir : Bytes) (o : Option Flags) (p : Process C S)
      → get_flags machine.is_missing work_dir ≡ o
      → with_flags lib machine o ≡ runs p
      → Ready work_dir p
  flags-Ready work_dir none p there run = cc
  flags-Ready work_dir (some flags) p there run =
      let (conf, taken, (keys, kept, same)) =
        conf_ready flags (load machine.disk flags.main_config_file_path new_conf) p run in
      subst (Ready work_dir) (sym same)
        (record { flags = there; conf = taken; keys = kept; begun = refl })

  ready :
      (work_dir : Bytes) (p : Process C S) → main lib machine work_dir ≡ runs p → Ready work_dir p
  unfolding main
  ready work_dir p run = flags-Ready work_dir (get_flags machine.is_missing work_dir) p refl run

  begun_keys :
      (flags : Flags) (conf : Conf) (keys : List (Bytes × Key C S))
      → HasKeys conf keys
      → with_conf lib machine flags (ok tt, conf) ≡ runs (listening lib flags conf keys)
  begun_keys flags conf keys (inl (off, none_of)) = rw (off, none_of) refl
  begun_keys flags conf keys (inr (on, there)) = rw (on, there) refl

  begun :
      (work_dir : Bytes) (p : Process C S) → Ready work_dir p → main lib machine work_dir ≡ runs p
  unfolding main
  begun work_dir p r =
      ap (with_flags lib machine) r.flags
      ∙ ap (with_conf lib machine p.flags) r.conf
      ∙ begun_keys p.flags p.conf p.keys r.keys
      ∙ ap runs (sym r.begun)

  -- `main` comes to its wait with a process if and only if both files are there, the configuration
  -- was loaded without an error, and, if DKIM is enabled, the keys were; the process has that
  -- configuration and these keys, or none, empty queues, a limiter of the senders as large as the
  -- configuration says, and all five goroutines, of which the two listeners came last.
  pub main_lem :
      (work_dir : Bytes) (p : Process C S) → (main lib machine work_dir ≡ runs p) ↔ Ready work_dir p
  main_lem work_dir p = (ready work_dir p, begun work_dir p)
