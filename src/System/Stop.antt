-- ===== src/System/Stop.antt =====
-- When `GracefullyStop` stops waiting.
use smtprelay.Base.{◌+◌, ◌<◌, ◌≡◌, refl, true, none, List, [], ◌∷◌, arith, length, Bytes}
use smtprelay.Config.{Conf}
use smtprelay.Stats.{mail_queue_check_max, init_statistics}
use smtprelay.Queue.{QueueEntry, Relay, push_mail, pop_mail, get_mail_queue_length}
use smtprelay.Dkim.{DkimLibrary, Key}
use smtprelay.System.{
  System, init, with_sender, accept, pop, start, Reach, here, next, queues_empty,
}
use smtprelay.System.Account.{Reach-Inv}

module _ {C S : Type 0} (lib : DkimLibrary C S) (repo : List (Bytes × Key C S)) (conf : Conf) where
  -- If nothing is under way when the queues are found empty, every message that was taken has been
  -- counted as sent or as dropped.
  pub stop_accounts :
      (s : System)
      → Reach lib repo conf init s
      → queues_empty (get_mail_queue_length s.relay) s.relay ≡ true
      → s.popped ≡ none
      → s.flying ≡ []
      → s.held ≡ none
      → s.taken + s.refused
        ≡ length s.relay.stats.mail_sent_channel + length s.relay.stats.mail_dropped_channel
  unfolding queues_empty
  stop_accounts s r empty p f h = ground (arith, (Reach-Inv lib repo conf r).conserved)

  abbrev one_queue_check : Relay → Relay
  one_queue_check r = record r { stats = mail_queue_check_max 0 0 r.stats }

  abbrev after_start : QueueEntry → System
  after_start e = record init {
    relay = with_sender (one_queue_check init.relay);
    flying = e ∷ [];
    taken = 1;
  }

  -- With a place for a sender, the loop of `GracefullyStop` can end while the attempt to send any
  -- message is still running: the queues are empty, and the message is counted neither as sent nor as
  -- dropped.
  pub stop_leaves_flying :
      (e : QueueEntry)
      → e.error_count ≡ 0
      → 0 < conf.max_outcoming_connections
      → (s : System) × Reach lib repo conf init s
        × (queues_empty (get_mail_queue_length s.relay) s.relay ≡ true)
        × (s.flying ≡ e ∷ [])
        × (s.relay.stats.mail_sent_channel ≡ [])
        × (s.relay.stats.mail_dropped_channel ≡ [])
  unfolding queues_empty init init_statistics push_mail pop_mail mail_queue_check_max
  stop_leaves_flying e fresh places = (
    after_start e,
    next
        (next
          (next here (
            accept e (record (one_queue_check init.relay) { mail_queue = e ∷ [] }) fresh refl refl))
          (pop e (one_queue_check init.relay) refl refl refl))
        (start e refl places refl),
    refl,
    refl,
    refl,
    refl,
  )
