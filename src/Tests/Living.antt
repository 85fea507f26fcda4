-- ===== src/Tests/Living.antt =====
-- A process from its start to its end, on concrete inputs.
use smtprelay.Base.{
  ◌+◌, ◌≤◌, ◌≡◌, refl, false, true, none, some, [], ◌∷◌, codes, pos, arith, length,
}
use smtprelay.Config.{Disk}
use smtprelay.Queue.{Relay, push_mail, pop_mail, get_mail_queue_length, get_error_queue_length}
use smtprelay.Stats.{mail_queue_check_max, init_statistics}
use smtprelay.System.{System, init, accept, pop, start, with_sender, queues_empty}
use smtprelay.System.Account.{relay_count, flying_count}
use smtprelay.Process
use smtprelay.Process.{
  alive, stopping, exited, sigusr1, sigterm, Process, runs, Machine, main, listening, Life, work,
  on_reload, on_stop, count, found_empty, leave, Lives, still, later,
}
use smtprelay.Process.Lasting.{lives_conserve, Emptied, Uncounted, exited_loses}
use smtprelay.Tests.Fixtures.{conf, lib, entry}

abbrev disk : Disk
disk = record { read_file = λ name. some (codes "{}"); unmarshal = λ file c. (true, conf) }

abbrev machine : Machine
machine = record {
  is_missing = λ name. false;
  disk = disk;
  key_dir = λ name. record { names = none; read_file = λ n. none; decode = λ t. none };
}

abbrev begun : Process (Unit {0}) (Unit {0})
begun =
    listening lib
      (record {
        main_config_file_path = codes "/etc/config.json";
        log_config_file_path = codes "/etc/logconfig.xml";
      })
      conf []

begun_runs : main lib machine (codes "/etc") ≡ runs begun
unfolding main Process.get_flags smtprelay.Config.load
begun_runs = refl

-- The configuration is loaded again, a message is taken and popped, its attempt starts, and the
-- process is stopped.
abbrev reported : Relay
reported = record init.relay {
  stats = record init_statistics { mail_max_queue_channel = pos 0 ∷ [] };
}

abbrev taken : System
taken = record init { relay = record reported { mail_queue = entry ∷ [] }; taken = 1 }

abbrev popped : System
popped = record taken { relay = reported; popped = some entry }

abbrev started : System
started = record popped { relay = with_sender reported; popped = none; flying = entry ∷ [] }

abbrev ended : Process (Unit {0}) (Unit {0})
ended = record begun { system = started; course = exited }

ended_lives : Lives lib begun ended
unfolding init init_statistics push_mail pop_mail mail_queue_check_max queues_empty
    smtprelay.Queue.init_queues smtprelay.Config.reload_config smtprelay.Config.load
ended_lives =
    let taking : Lives lib begun (record begun { system = taken }) =
      later (later still (on_reload sigusr1 disk refl refl refl)) (
        work taken refl (accept entry (record reported { mail_queue = entry ∷ [] }) refl refl refl)
          refl) in
    let popping : Lives lib begun (record begun { system = popped }) =
      later taking (work popped refl (pop entry reported refl refl refl) refl) in
    let flying : Lives lib begun (record begun { system = started }) =
      later popping (work started refl (start entry refl (omega arith) refl) refl) in
    let halting : Lives lib begun (record begun { system = started; course = stopping }) =
      later flying (on_stop sigterm refl refl refl) in
    later (later (later halting (count refl refl)) (found_empty 0 refl refl refl)) (leave refl refl)

lives_conserve_example :
    (ended.system.taken + ended.system.refused
      ≡ relay_count ended.system.relay + flying_count ended.system)
    × (length ended.system.flying ≤ begun.conf.max_outcoming_connections)
    × (ended.keys ≡ begun.keys)
lives_conserve_example =
    lives_conserve lib machine (codes "/etc") begun ended begun_runs ended_lives

exited_loses_example :
    (e : Emptied lib begun ended) × Uncounted e.no_mails.moment.system (
      get_error_queue_length e.no_mails.moment.system.relay
      + (begun.conf.max_outcoming_connections + 2))
    × Uncounted e.moment.system
        (get_mail_queue_length e.moment.system.relay + (begun.conf.max_outcoming_connections + 2))
exited_loses_example =
    exited_loses lib machine (codes "/etc") begun ended begun_runs ended_lives refl
