-- ===== src/Tests/Running.antt =====
-- A message that is accepted, popped, sent and counted, as steps of the relay.
use smtprelay.Base.{◌+ℤ◌, ◌≡◌, ◌+◌, refl, true, none, some, [], ◌∷◌, arith, pos, negsuc}
use smtprelay.Queue.{Relay, push_mail, pop_mail, get_mail_queue_length}
use smtprelay.Stats.{
  mail_queue_check_max, init_statistics, mail_senders_decrease_counter, mail_sent_increase_counter,
  mail_senders_increase_counter,
}
use smtprelay.Sender.{send_mail, attempt}
use smtprelay.System.{
  System, init, Reach, here, next, accept, pop, start, finish, with_sender, queues_empty,
}
use smtprelay.Statistics.{received, get_statistics}
use smtprelay.Statistics.Sums.{get_statistics_lem}
use smtprelay.System.Account.{flying_count, Inv, Reach-Inv}
use smtprelay.System.Bounds.{InLimits, Reach-InLimits}
use smtprelay.System.Stop.{stop_leaves_flying}
use smtprelay.Tests.Fixtures.{conf, lib, repo, outside, entry}

-- The globals once the length of the queues was reported.
abbrev reported : Relay
reported = record init.relay {
  stats = record init_statistics { mail_max_queue_channel = pos 0 ∷ [] };
}

abbrev accepted : System
accepted = record init { relay = record reported { mail_queue = entry ∷ [] }; taken = 1 }

accepted-Reach : Reach lib repo conf init accepted
unfolding init init_statistics push_mail mail_queue_check_max
accepted-Reach =
    next here (accept entry (record reported { mail_queue = entry ∷ [] }) refl refl refl)

abbrev popped : System
popped = record accepted { relay = reported; popped = some entry }

popped-Reach : Reach lib repo conf init popped
unfolding init init_statistics pop_mail
popped-Reach = next accepted-Reach (pop entry reported refl refl refl)

abbrev started : System
started = record popped { relay = with_sender reported; popped = none; flying = entry ∷ [] }

started-Reach : Reach lib repo conf init started
unfolding init init_statistics
started-Reach = next popped-Reach (start entry refl (omega arith) refl)

abbrev done : System
done = record started {
  relay = record reported {
    stats = record init_statistics {
      mail_max_queue_channel = pos 0 ∷ [];
      mail_senders_channel = pos 1 ∷ negsuc 0 ∷ [];
      mail_sent_channel = pos 1 ∷ [];
    };
  };
  flying = [];
}

done-Reach : Reach lib repo conf init done
unfolding init init_statistics send_mail attempt mail_senders_decrease_counter
    mail_sent_increase_counter mail_senders_increase_counter
done-Reach =
    next started-Reach (finish [] [] entry (outside none) done.relay refl (omega arith) refl refl)

Reach-Inv_example : Inv lib repo conf done
Reach-Inv_example = Reach-Inv lib repo conf done-Reach

Reach-InLimits_example : InLimits lib repo conf done
Reach-InLimits_example = Reach-InLimits lib repo conf done-Reach

stop_leaves_flying_example :
    (s : System) × Reach lib repo conf init s
    × (queues_empty (get_mail_queue_length s.relay) s.relay ≡ true)
    × (s.flying ≡ entry ∷ [])
    × (s.relay.stats.mail_sent_channel ≡ [])
    × (s.relay.stats.mail_dropped_channel ≡ [])
stop_leaves_flying_example = stop_leaves_flying lib repo conf entry refl (omega arith)

get_statistics_lem_example :
    (let q = get_statistics (received done.relay.stats) conf done.relay in
      q.mail_sent_since_last_restart
      +ℤ q.mail_dropped_since_last_restart
      +ℤ pos (q.overall_counter + flying_count done))
    ≡ pos (done.taken + done.refused)
get_statistics_lem_example = get_statistics_lem lib repo conf done done-Reach
