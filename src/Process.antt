-- ===== src/Process.antt =====
-- smtprelay.go: `main`, the flags, the signals and the end of the process.
pub mod Starting
pub mod Lasting
use smtprelay.Base.{
  ℕ, ◌≡◌, Bool, true, false, not, ◌||◌, ◌&&◌, Option, none, some, List, [], ◌∷◌, ◌++◌,
  if◌then◌else◌, Bytes, codes,
}
use smtprelay.Base.Outcome.{Outcome, ok, err, panicked, diverged, blocked}
use smtprelay.Config.{Conf, ConfError, Disk, Flags, new_conf, load, reload_config}
use smtprelay.Queue.{Relay, init_queues, flush_errors, get_mail_queue_length}
use smtprelay.Dkim.{DkimLibrary, Key, KeyDir, dkim_load_key_repository}
use smtprelay.System.{System, init, Step, queues_empty}

abbrev pub main_config_file_name : Bytes
main_config_file_name = codes "config.json"

abbrev pub log_config_file_name : Bytes
log_config_file_name = codes "logconfig.xml"

-- The goroutines that `main` starts.
pub data Goroutine : Type 0 where
  statistic_server sender signal_listener smtp_server tcp_server : Goroutine

-- `GracefullyStop` is `stopping` while it waits for the queues, `counting` between the reading of
-- the length of the mail queue, with what it read, and that of the error queue, and `leaving`
-- behind that; `exited` is the end of `main`, and `killed` the end by a signal.
pub data Course : Type 0 where
  alive stopping leaving exited killed : Course
  counting : ℕ → Course

abbrev pub is_up : Course → Bool
is_up alive = true
is_up stopping = true
is_up (counting mails) = true
is_up leaving = true
is_up exited = false
is_up killed = false

-- The signals that the program names.
pub data Signal : Type 0 where
  sigusr1 sigusr2 sigint sigkill sigterm sighup : Signal

pub data Action : Type 0 where
  reload flush stop kill : Action

-- The arguments of `signal.Notify`, and those of them that the system lets a process catch.
abbrev pub is_notified : Signal → Bool
is_notified sigusr1 = true
is_notified sigusr2 = true
is_notified sigint = true
is_notified sigkill = true
is_notified sigterm = true
is_notified sighup = false

abbrev pub is_caught : Signal → Bool
is_caught sigusr1 = true
is_caught sigusr2 = true
is_caught sigint = true
is_caught sigkill = false
is_caught sigterm = true
is_caught sighup = true

-- `switch signal { … }`
abbrev pub handled : Signal → Action
handled sigusr1 = reload
handled sigusr2 = flush
handled sigint = stop
handled sigkill = stop
handled sigterm = stop
handled sighup = stop

-- A signal that does not come to the channel ends the process, which is what each of these does.
abbrev pub action : Signal → Action
action g = if is_notified g && is_caught g then handled g else kill

-- The globals of the process. `senders` is the size of the limiter, which is made once; `num_cpu` is
-- what `runtime.GOMAXPROCS` was given.
pub record Process (C S : Type 0) : Type 0 where
  pub flags : Flags
  pub conf : Conf
  pub senders : ℕ
  pub num_cpu : ℕ
  pub keys : List (Bytes × Key C S)
  pub system : System
  pub goroutines : List Goroutine
  pub course : Course

-- What `main` comes to before it waits: an exit with an error, a panic with the goroutines that
-- were running, or the process.
pub data Started (C S : Type 0) : Type 0 where
  exits : Started C S
  panics : List Goroutine → Started C S
  runs : Process C S → Started C S

-- What `main` meets: whether a file is missing, the files, and the directories of the keys.
pub record Machine : Type 0 where
  pub is_missing : Bytes → Bool
  pub disk : Disk
  pub key_dir : Bytes → KeyDir

-- `GetFlags`: `none` is an exit.
unfoldable pub get_flags : (Bytes → Bool) → Bytes → Option Flags
get_flags is_missing work_dir =
    let main_path = work_dir ++ codes "/" ++ main_config_file_name in
    let log_path = work_dir ++ codes "/" ++ log_config_file_name in
    if is_missing main_path || is_missing log_path
    then none
    else some (record { main_config_file_path = main_path; log_config_file_path = log_path })

abbrev pub early : List Goroutine
early = statistic_server ∷ sender ∷ []

module _ {C S : Type 0} (lib : DkimLibrary C S) where
  -- `main` behind the keys.
  abbrev pub listening : Flags → Conf → List (Bytes × Key C S) → Process C S
  listening flags conf keys = record {
    flags = flags;
    conf = conf;
    senders = conf.max_outcoming_connections;
    num_cpu = conf.num_cpu;
    keys = keys;
    system = record init { relay = init_queues init.relay };
    goroutines = early ++ signal_listener ∷ smtp_server ∷ tcp_server ∷ [];
    course = alive;
  }

  abbrev pub with_keys : Flags → Conf → Option (List (Bytes × Key C S)) → Started C S
  with_keys flags conf none = panics early
  with_keys flags conf (some keys) = runs (listening flags conf keys)

  abbrev pub with_conf : Machine → Flags → Outcome ConfError (Unit {0}) × Conf → Started C S
  with_conf machine flags (ok u, conf) =
      if conf.dkim_enabled
      then with_keys flags conf (dkim_load_key_repository lib (machine.key_dir conf.dkim_key_dir))
      else runs (listening flags conf [])
  with_conf machine flags (err e, conf) = panics []
  with_conf machine flags (panicked, conf) = panics []
  with_conf machine flags (diverged, conf) = panics []
  with_conf machine flags (blocked, conf) = panics []

  abbrev pub with_flags : Machine → Option Flags → Started C S
  with_flags machine none = exits
  with_flags machine (some flags) =
      with_conf machine flags (load machine.disk flags.main_config_file_path new_conf)

  unfoldable pub main : Machine → Bytes → Started C S
  unfolding get_flags load new_conf dkim_load_key_repository init init_queues
  main machine work_dir = with_flags machine (get_flags machine.is_missing work_dir)

  -- `ReloadConfig` of a running process.
  abbrev pub reloaded : Disk → Process C S → Process C S
  reloaded disk p =
      let conf = reload_config disk p.flags p.flags.main_config_file_path p.conf in
      record p { conf = conf; num_cpu = conf.num_cpu }

  -- The configuration that the goroutines go by.
  abbrev pub in_force : Process C S → Conf
  in_force p = record p.conf { max_outcoming_connections = p.senders }

  -- A step of the process: of one of its goroutines between the queues, by a signal, or the end of
  -- `GracefullyStop`. The listener of the signals takes none while it stops the process. The files may
  -- change at any time.
  pub data Life (p : Process C S) (q : Process C S) : Type 0 where
    work :
        (s : System)
        → is_up p.course ≡ true
        → Step lib p.keys (in_force p) p.system s
        → q ≡ record p { system = s }
        → Life p q
    on_reload :
        (g : Signal) (disk : Disk)
        → action g ≡ reload
        → p.course ≡ alive
        → q ≡ reloaded disk p
        → Life p q
    on_flush :
        (g : Signal) (r : Relay)
        → action g ≡ flush
        → p.course ≡ alive
        → flush_errors p.conf.deferred_mail_max_errors p.system.relay ≡ (ok tt, r)
        → q ≡ record p { system = record p.system { relay = r } }
        → Life p q
    on_stop :
        (g : Signal)
        → action g ≡ stop
        → p.course ≡ alive
        → q ≡ record p { course = stopping }
        → Life p q
    -- `GetMailQueueLength()` of the test, and then `GetErrorQueueLength()`
    count :
        p.course ≡ stopping
        → q ≡ record p { course = counting (get_mail_queue_length p.system.relay) }
        → Life p q
    found_some :
        (mails : ℕ)
        → p.course ≡ counting mails
        → queues_empty mails p.system.relay ≡ false
        → q ≡ record p { course = stopping }
        → Life p q
    found_empty :
        (mails : ℕ)
        → p.course ≡ counting mails
        → queues_empty mails p.system.relay ≡ true
        → q ≡ record p { course = leaving }
        → Life p q
    leave : p.course ≡ leaving → q ≡ record p { course = exited } → Life p q
    on_kill :
        (g : Signal)
        → action g ≡ kill
        → is_up p.course ≡ true
        → q ≡ record p { course = killed }
        → Life p q

  pub data Lives (p : Process C S) : Process C S → Type 0 where
    still : Lives p p
    later : {q r : Process C S} → Lives p q → Life q r → Lives p r
