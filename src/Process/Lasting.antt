-- ===== src/Process/Lasting.antt =====
-- No message is lost while the process lasts, and few when it stops.
use smtprelay.Base.{
  ℕ, ◌+◌, ◌≤◌, ◌≡◌, refl, sym, ap, ◌∙◌, true, Option, none, some, List, Bytes, arith, length,
}
use smtprelay.Base.Outcome.{ok}
use smtprelay.Config.{Conf, Flags}
use smtprelay.Dkim.{DkimLibrary, Key}
use smtprelay.Queue.{
  Relay, QueueEntry, flush_errors, init_queues, get_mail_queue_length, get_error_queue_length,
}
use smtprelay.Stats.{init_statistics}
use smtprelay.Process.Starting.{Ready, main_lem}
use mathlib.Core.Path.{subst}
use smtprelay.System.{System, init, queues_empty}
use smtprelay.System.Account.{Inv, Step-Inv, flush_count, held_count, relay_count, flying_count}
use smtprelay.Process.{
  Course, alive, stopping, exited, killed, Process, runs, leaving, Machine, main, listening,
  in_force, Life, work, on_reload, on_flush, on_stop, counting, count, found_some, found_empty,
  leave, on_kill, Lives, still, later,
}

-- All that was taken or refused, but `n` messages at most, is counted as sent or as dropped.
abbrev pub Uncounted : System → ℕ → Type 0
Uncounted s n =
    s.taken + s.refused
    ≤ length s.relay.stats.mail_sent_channel + length s.relay.stats.mail_dropped_channel + n

module _ {C S : Type 0} (lib : DkimLibrary C S) where
  -- What holds of a process that began as `p`.
  record Lasts (p q : Process C S) : Type 0 where
    conserved :
        q.system.taken + q.system.refused ≡ relay_count q.system.relay + flying_count q.system
    limited : q.system.relay.sender_limiter ≡ length q.system.flying
    bounded : length q.system.flying ≤ p.senders
    senders : q.senders ≡ p.senders
    keys : q.keys ≡ p.keys
    flags : q.flags ≡ p.flags

  Lasts-Inv : (p q : Process C S) → Lasts p q → Inv lib q.keys (in_force lib q) q.system
  Lasts-Inv p q l = record {
    conserved = l.conserved;
    limited = l.limited;
    bounded = rw l.senders l.bounded;
  }

  -- The same process with another system, whose account is right.
  with_system :
      (p q : Process C S) (s : System)
      → Lasts p q
      → Inv lib q.keys (in_force lib q) s
      → Lasts p (record q { system = s })
  with_system p q s l v = record {
    conserved = v.conserved;
    limited = v.limited;
    bounded = rw (sym l.senders) v.bounded;
    senders = l.senders;
    keys = l.keys;
    flags = l.flags;
  }

  with_course : (p q : Process C S) (c : Course) → Lasts p q → Lasts p (record q { course = c })
  with_course p q c l = record {
    conserved = l.conserved;
    limited = l.limited;
    bounded = l.bounded;
    senders = l.senders;
    keys = l.keys;
    flags = l.flags;
  }

  flushed-Inv :
      (q : Process C S) (k : ℕ) (r : Relay)
      → flush_errors k q.system.relay ≡ (ok tt, r)
      → Inv lib q.keys (in_force lib q) q.system
      → Inv lib q.keys (in_force lib q) (record q.system { relay = r })
  flushed-Inv q k r run v =
      let (same, limiter) = flush_count k q.system.relay r run in
      record {
        conserved = v.conserved ∙ ap (λ n. n + flying_count q.system) (sym same);
        limited = limiter ∙ v.limited;
        bounded = v.bounded;
      }

  Life-Lasts : {p q r : Process C S} → Lasts p q → Life lib q r → Lasts p r
  Life-Lasts {p} {q} l (work s up step same) =
      subst (Lasts p) (sym same)
        (with_system p q s l (Step-Inv lib q.keys (in_force lib q) step (Lasts-Inv p q l)))
  Life-Lasts {p} {q} l (on_reload g disk asked up same) = subst (Lasts p) (sym same) (record {
    conserved = l.conserved;
    limited = l.limited;
    bounded = l.bounded;
    senders = l.senders;
    keys = l.keys;
    flags = l.flags;
  })
  Life-Lasts {p} {q} l (on_flush g r asked up run same) = subst (Lasts p) (sym same) (
      with_system p q (record q.system { relay = r }) l
        (flushed-Inv q q.conf.deferred_mail_max_errors r run (Lasts-Inv p q l)))
  Life-Lasts {p} {q} l (on_stop g asked up same) =
      subst (Lasts p) (sym same) (with_course p q stopping l)
  Life-Lasts {p} {q} l (count up same) =
      subst (Lasts p) (sym same)
        (with_course p q (counting (get_mail_queue_length q.system.relay)) l)
  Life-Lasts {p} {q} l (found_some mails up waits same) =
      subst (Lasts p) (sym same) (with_course p q stopping l)
  Life-Lasts {p} {q} l (found_empty mails up empty same) =
      subst (Lasts p) (sym same) (with_course p q leaving l)
  Life-Lasts {p} {q} l (leave up same) = subst (Lasts p) (sym same) (with_course p q exited l)
  Life-Lasts {p} {q} l (on_kill g asked up same) =
      subst (Lasts p) (sym same) (with_course p q killed l)

  Lives-Lasts : {p q : Process C S} → Lasts p p → Lives lib p q → Lasts p q
  Lives-Lasts l still = l
  Lives-Lasts l (later lives step) = Life-Lasts (Lives-Lasts l lives) step

  listening-Lasts :
      (flags : Flags) (conf : Conf) (keys : List (Bytes × Key C S))
      → let p = listening lib flags conf keys in Lasts p p
  unfolding init init_queues init_statistics queues_empty
  listening-Lasts flags conf keys = record {
    conserved = refl;
    limited = refl;
    bounded = omega arith;
    senders = refl;
    keys = refl;
    flags = refl;
  }

  main-Lasts :
      (machine : Machine) (work_dir : Bytes) (p q : Process C S)
      → main lib machine work_dir ≡ runs p
      → Lives lib p q
      → Lasts p q
  main-Lasts machine work_dir p q run lives =
      let ready : Ready lib machine work_dir p = (main_lem lib machine work_dir p).0 run in
      Lives-Lasts (subst (λ p. Lasts p p) (sym ready.begun) (listening-Lasts p.flags p.conf p.keys))
        lives

  -- A process that `main` has begun, whatever signals come, however often the configuration is
  -- loaded again, from whatever files, and however the goroutines are interleaved: each message
  -- that was taken or refused is in a queue, or under way, or counted as sent or dropped; the
  -- attempts under way are no more than the configuration allowed at the start; the keys are those
  -- of the start.
  pub lives_conserve :
      (machine : Machine) (work_dir : Bytes) (p q : Process C S)
      → main lib machine work_dir ≡ runs p
      → Lives lib p q
      → (q.system.taken + q.system.refused ≡ relay_count q.system.relay + flying_count q.system)
        × (length q.system.flying ≤ p.conf.max_outcoming_connections)
        × (q.keys ≡ p.keys)
  lives_conserve machine work_dir p q run lives =
      let l : Lasts p q = main-Lasts machine work_dir p q run lives in
      let ready : Ready lib machine work_dir p = (main_lem lib machine work_dir p).0 run in
      (l.conserved, rw (sym (ap (λ p. p.senders) ready.begun)) l.bounded, l.keys)

  held_few : (o : Option QueueEntry) → held_count o ≤ 1
  held_few none = omega arith
  held_few (some e) = omega arith

  -- The moment at which `GracefullyStop` read the length of the mail queue.
  pub record Counted (p q : Process C S) (mails : ℕ) : Type 0 where
    pub moment : Process C S
    pub before : Lives lib p moment
    pub behind : Lives lib moment q
    pub waited : moment.course ≡ stopping
    pub read : get_mail_queue_length moment.system.relay ≡ mails

  -- Behind a moment at which it found the mail queue empty, the one at which it found the error
  -- queue empty.
  pub record Emptied (p q : Process C S) : Type 0 where
    pub moment : Process C S
    pub no_mails : Counted p moment 0
    pub behind : Lives lib moment q
    pub no_errors : get_error_queue_length moment.system.relay ≡ 0

  -- What the process has seen when it is in a state of its course.
  abbrev Seen : (p q : Process C S) → Course → Type 0
  Seen p q alive = Unit
  Seen p q stopping = Unit
  Seen p q leaving = Emptied p q
  Seen p q exited = Emptied p q
  Seen p q killed = Unit
  Seen p q (counting mails) = Counted p q mails

  -- It has still seen it one step later.
  Life-Seen :
      (p : Process C S) {q : Process C S} (r : Process C S) (c : Course)
      → Seen p q c
      → Life lib q r
      → Seen p r c
  Life-Seen p r alive e step = tt
  Life-Seen p r stopping e step = tt
  Life-Seen p r leaving e step = record {
    moment = e.moment;
    no_mails = e.no_mails;
    behind = later e.behind step;
    no_errors = e.no_errors;
  }
  Life-Seen p r exited e step = record {
    moment = e.moment;
    no_mails = e.no_mails;
    behind = later e.behind step;
    no_errors = e.no_errors;
  }
  Life-Seen p r killed e step = tt
  Life-Seen p r (counting mails) e step = record {
    moment = e.moment;
    before = e.before;
    behind = later e.behind step;
    waited = e.waited;
    read = e.read;
  }

  in_course : (p r : Process C S) (c : Course) → r.course ≡ c → Seen p r c → Seen p r r.course
  in_course p r c e seen = subst (Seen p r) (sym e) seen

  found_both :
      {p q r : Process C S} (mails : ℕ)
      → queues_empty mails q.system.relay ≡ true
      → Counted p q mails
      → Life lib q r
      → Emptied p r
  unfolding queues_empty
  found_both {p} {q} mails empty e step =
      let nothing : mails ≡ 0 = ground (arith, empty) in
      record {
        moment = q;
        no_mails = record {
          moment = e.moment;
          before = e.before;
          behind = e.behind;
          waited = e.waited;
          read = e.read ∙ nothing;
        };
        behind = later still step;
        no_errors = ground (arith, empty);
      }

  Lives-Seen : (p q : Process C S) → p.course ≡ alive → Lives lib p q → Seen p q q.course
  Lives-Seen p q new still = in_course p q alive new tt
  Lives-Seen p r new (later {q} lives (work s up step same)) =
      in_course p r q.course (ap (λ r. r.course) same)
        (Life-Seen p r q.course (Lives-Seen p q new lives) (work s up step same))
  Lives-Seen p r new (later {q} lives (on_reload g disk asked up same)) =
      in_course p r alive (ap (λ r. r.course) same ∙ up) tt
  Lives-Seen p r new (later {q} lives (on_flush g relay asked up run same)) =
      in_course p r alive (ap (λ r. r.course) same ∙ up) tt
  Lives-Seen p r new (later {q} lives (on_stop g asked up same)) =
      in_course p r stopping (ap (λ r. r.course) same) tt
  Lives-Seen p r new (later {q} lives (count up same)) =
      in_course p r (counting (get_mail_queue_length q.system.relay)) (ap (λ r. r.course) same)
        (record {
          moment = q;
          before = lives;
          behind = later still (count up same);
          waited = up;
          read = refl;
        })
  Lives-Seen p r new (later {q} lives (found_some mails up waits same)) =
      in_course p r stopping (ap (λ r. r.course) same) tt
  Lives-Seen p r new (later {q} lives (found_empty mails up empty same)) =
      let e : Counted p q mails = subst (Seen p q) up (Lives-Seen p q new lives) in
      in_course p r leaving (ap (λ r. r.course) same)
        (found_both mails empty e (found_empty mails up empty same))
  Lives-Seen p r new (later {q} lives (leave up same)) =
      let e : Emptied p q = subst (Seen p q) up (Lives-Seen p q new lives) in
      in_course p r exited (ap (λ r. r.course) same) (Life-Seen p r exited e (leave up same))
  Lives-Seen p r new (later {q} lives (on_kill g asked up same)) =
      in_course p r killed (ap (λ r. r.course) same) tt

  Lives-Uncounted :
      (machine : Machine) (work_dir : Bytes) (p q : Process C S)
      → main lib machine work_dir ≡ runs p
      → Lives lib p q
      → Uncounted q.system (
          get_mail_queue_length q.system.relay
          + get_error_queue_length q.system.relay
          + (p.conf.max_outcoming_connections + 2))
  Lives-Uncounted machine work_dir p q run lives =
      let (kept, few, keys) = lives_conserve machine work_dir p q run lives in
      omega (arith, kept, few, held_few q.system.popped, held_few q.system.held)

  lives_on : {p q r : Process C S} → Lives lib p q → Lives lib q r → Lives lib p r
  lives_on first still = first
  lives_on first (later second step) = later (lives_on first second) step

  -- A process that `main` has begun comes to its end by GracefullyStop only through two moments: one at
  -- which that, while it waited, read that the mail queue is empty, and a later one at which the error
  -- queue is empty. At the first, all that was taken or refused is counted as sent or as dropped, but
  -- for the messages in the error queue, and as many as the attempts that the configuration allowed at
  -- the start, and two; at the second, but for those in the mail queue, and as many as the same attempts,
  -- and two.
  pub exited_loses :
      (machine : Machine) (work_dir : Bytes) (p q : Process C S)
      → main lib machine work_dir ≡ runs p
      → Lives lib p q
      → q.course ≡ exited
      → (e : Emptied p q) × Uncounted e.no_mails.moment.system (
          get_error_queue_length e.no_mails.moment.system.relay
          + (p.conf.max_outcoming_connections + 2))
        × Uncounted e.moment.system
            (get_mail_queue_length e.moment.system.relay + (p.conf.max_outcoming_connections + 2))
  exited_loses machine work_dir p q run lives over =
      let ready : Ready lib machine work_dir p = (main_lem lib machine work_dir p).0 run in
      let e : Emptied p q =
        subst (Seen p q) over (Lives-Seen p q (ap (λ p. p.course) ready.begun) lives) in
      let first = Lives-Uncounted machine work_dir p e.no_mails.moment run e.no_mails.before in
      let second =
        Lives-Uncounted machine work_dir p e.moment run
          (lives_on e.no_mails.before e.no_mails.behind) in
      (e, omega (arith, first, e.no_mails.read), omega (arith, second, e.no_errors))
