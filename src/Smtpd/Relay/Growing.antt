-- ===== src/Smtpd/Relay/Growing.antt =====
-- What the SMTP handler, and with it a session, does to the globals of the relay.
use smtprelay.Base.{
  ℕ, ◌≤◌, ◌≡◌, ◌∙◌, ap, sym, refl, ◌||◌, some, List, [], ◌∷◌, ◌++◌, Bytes, length, arith, ltb, ◌==◌,
  append_assoc, append-nil, length-append, Bool-cases, inl, inr,
}
use smtprelay.Base.Outcome.{Outcome, ok, err, panicked, diverged, blocked}
use smtprelay.Status.{SmtpError, err_domain_not_found, err_message_error, err_too_many_recipients}
use smtprelay.Dns.{MxError}
use smtprelay.Message.{Msg, MessageError, domains, parse_message}
use smtprelay.Config.{Conf}
use smtprelay.Stats.{Stats}
use smtprelay.Queue.{
  QueueEntry, Relay, Exec, bind, run_deferred, cleaned, push_all, push_mail, send_mail_channel,
  check_max, max_mail_buffer_size,
}
use smtprelay.Listener.{Inbound, Envelope, server_of_domain, entry_for}
use smtprelay.Listener.Smtp.{
  refuse, build, handle_msg, handle_parsed, smtp_handler, recovered, handler_panic_processor,
}
use smtprelay.Smtpd.{Peer, Addr, Wire, Session}
use smtprelay.Smtpd.Login.{Decoders}
use smtprelay.Smtpd.Serve.{accept_session}
use smtprelay.Smtpd.Serve.Ending.{Over}
use smtprelay.Smtpd.Relay.{settled, relay_handler, handled, running_server, relay_session_keeps}

-- The mail queue has only got longer, within its buffer, and the error queue and the limiters are as
-- they were.
pub record Grown (r₀ r : Relay) : Type 0 where
  pub added : (es : List QueueEntry) × (r.mail_queue ≡ r₀.mail_queue ++ es)
  pub within : length r.mail_queue ≤ max_mail_buffer_size
  pub error_queue : r.error_queue ≡ r₀.error_queue
  pub sender_limiter : r.sender_limiter ≡ r₀.sender_limiter
  pub tcp_handlers_limiter : r.tcp_handlers_limiter ≡ r₀.tcp_handlers_limiter
  pub tcp_connections_limiter : r.tcp_connections_limiter ≡ r₀.tcp_connections_limiter

module _ (r₀ : Relay) where
  counted-Grown : (s : Stats) (r : Relay) → Grown r₀ r → Grown r₀ (record r { stats = s })
  counted-Grown s r g = record {
    added = g.added;
    within = g.within;
    error_queue = g.error_queue;
    sender_limiter = g.sender_limiter;
    tcp_handlers_limiter = g.tcp_handlers_limiter;
    tcp_connections_limiter = g.tcp_connections_limiter;
  }

  bind-Grown :
      {A B : Type 0} (o : Outcome SmtpError A × Relay) (f : A → Exec B)
      → Grown r₀ o.1
      → ((a : A) (r : Relay) → Grown r₀ r → Grown r₀ (f a r).1)
      → Grown r₀ (bind o f).1
  bind-Grown (ok a, r) f g h = h a r g
  bind-Grown (err e, r) f g h = g
  bind-Grown (panicked, r) f g h = g
  bind-Grown (diverged, r) f g h = g
  bind-Grown (blocked, r) f g h = g

  push_mail-Grown : (e : QueueEntry) (r : Relay) → Grown r₀ r → Grown r₀ (push_mail e r).1
  unfolding push_mail send_mail_channel check_max
  push_mail-Grown e r g =
      let (es, longer) = g.added in
      elim (Bool-cases (ltb (length r.mail_queue) max_mail_buffer_size)) [
        | inl room ↦ rw room (record {
          added =
              (es ++ e ∷ [], ap (λ q. q ++ e ∷ []) longer ∙ append_assoc r₀.mail_queue es (e ∷ []));
          within = ground (arith, length-append r.mail_queue (e ∷ []));
          error_queue = g.error_queue;
          sender_limiter = g.sender_limiter;
          tcp_handlers_limiter = g.tcp_handlers_limiter;
          tcp_connections_limiter = g.tcp_connections_limiter;
        })
        | inr full ↦ rw full (counted-Grown _ r g)
      ]

  push_all-Grown : (es : List QueueEntry) (r : Relay) → Grown r₀ r → Grown r₀ (push_all es r).1
  unfolding push_all
  push_all-Grown [] r g = g
  push_all-Grown (e ∷ es) r g =
      bind-Grown (push_mail e r) (λ _. push_all es) (push_mail-Grown e r g)
        (λ _ r'. push_all-Grown es r')

  refuse-Grown :
      (A : Type 0) (e : SmtpError) (r : Relay) → Grown r₀ r → Grown r₀ (refuse {A = A} e r).1
  unfolding refuse
  refuse-Grown A e r g = counted-Grown _ r g

  cleaned-Grown :
      {A : Type 0} (o : Outcome SmtpError A) (c : Outcome SmtpError (Unit {0}) × Relay)
      → Grown r₀ c.1
      → Grown r₀ (cleaned o c).1
  cleaned-Grown o (ok a, r) g = g
  cleaned-Grown o (err e, r) g = g
  cleaned-Grown o (panicked, r) g = g
  cleaned-Grown o (diverged, r) g = g
  cleaned-Grown o (blocked, r) g = g

  run_deferred-Grown :
      {A : Type 0} (o : Outcome SmtpError A × Relay) (last : Exec (Unit {0}))
      → Grown r₀ o.1
      → ((r : Relay) → Grown r₀ r → Grown r₀ (last r).1)
      → Grown r₀ (run_deferred o last).1
  run_deferred-Grown (ok a, r) last g h = cleaned-Grown (ok a) (last r) (h r g)
  run_deferred-Grown (err e, r) last g h = cleaned-Grown (err e) (last r) (h r g)
  run_deferred-Grown (panicked, r) last g h = cleaned-Grown panicked (last r) (h r g)
  run_deferred-Grown (diverged, r) last g h = g
  run_deferred-Grown (blocked, r) last g h = g

  module _ (inb : Inbound) (conf : Conf) (env : Envelope) where
    build-Grown :
        (msg : Msg) (ds : List Bytes) (r : Relay)
        → Grown r₀ r
        → Grown r₀ (build inb conf env msg ds r).1
    unfolding build
    build-Grown msg [] r g = g
    build-Grown msg (d ∷ ds) r g =
        let rest = build-Grown msg ds r g in by_server (server_of_domain inb conf d) refl rest
      where
        by_server :
            (o : Outcome MxError Bytes)
            → server_of_domain inb conf d ≡ o
            → Grown r₀ (build inb conf env msg ds r).1
            → Grown r₀ (build inb conf env msg (d ∷ ds) r).1
        by_server (ok server) e h =
            rw (e, build)
              (bind-Grown (build inb conf env msg ds r)
                (λ entries r'. (ok (entry_for inb conf env msg d server ∷ entries), r')) h
                (λ _ r'. λ h'. h'))
        by_server (err x) e h =
            rw (e, build) (refuse-Grown (List QueueEntry) err_domain_not_found r g)
        by_server panicked e h = rw (e, build) g
        by_server diverged e h = rw (e, build) g
        by_server blocked e h = rw (e, build) g

    handle_msg-Grown :
        (msg : Msg) (r : Relay) → Grown r₀ r → Grown r₀ (handle_msg inb conf env msg r).1
    unfolding handle_msg
    handle_msg-Grown msg r g =
        elim (Bool-cases
          (ltb conf.max_recipients (length env.recipients) || length env.recipients == 0)) [
            | inl bad ↦ rw bad (refuse-Grown (Unit {0}) err_too_many_recipients r g)
            | inr fine ↦ rw fine (
                bind-Grown (build inb conf env msg (inb.visit (domains msg)) r) push_all
                  (build-Grown msg (inb.visit (domains msg)) r g) push_all-Grown)
          ]

    handle_parsed-Grown :
        (o : Outcome MessageError Msg) (r : Relay)
        → Grown r₀ r
        → Grown r₀ (handle_parsed inb conf env o r).1
    handle_parsed-Grown (ok msg) r g = handle_msg-Grown msg r g
    handle_parsed-Grown (err e) r g = refuse-Grown (Unit {0}) err_message_error r g
    handle_parsed-Grown panicked r g = g
    handle_parsed-Grown diverged r g = g
    handle_parsed-Grown blocked r g = g

    pub smtp_handler-Grown :
        (id : Bytes) (r : Relay) → Grown r₀ r → Grown r₀ (smtp_handler inb conf env id r).1
    unfolding smtp_handler
    smtp_handler-Grown id r g =
        run_deferred-Grown
          (handle_parsed inb conf env (parse_message inb.mail id env.recipients env.sender env.body)
            _)
          _ (handle_parsed-Grown _ _ (counted-Grown _ r g)) (λ r'. counted-Grown _ r')

  recovered-Grown :
      (o : Outcome SmtpError (Unit {0}) × Relay) → Grown r₀ o.1 → Grown r₀ (settled (recovered o)).1
  recovered-Grown (ok a, r) g = g
  recovered-Grown (err e, r) g = g
  recovered-Grown (panicked, r) g = g
  recovered-Grown (diverged, r) g = g
  recovered-Grown (blocked, r) g = g

  module _ (inb : Inbound) (conf : Conf) (fresh : Peer → Envelope → Relay → Bytes) where
    handled-Grown :
        (peer : Peer) (env : Envelope) (r : Relay)
        → Grown r₀ r
        → Grown r₀ (handled inb conf fresh peer env r)
    unfolding relay_handler handler_panic_processor
    handled-Grown peer env r g = recovered-Grown _ (smtp_handler-Grown inb conf env _ r g)

    -- Whatever a client sends to the relay whose mail queue is within its buffer, its session is
    -- closed in the end, or stops for ever in `smtpHandler`, and by then has only put entries behind
    -- those of the mail queue, within the buffer of that queue: the error queue and the limiters of
    -- the senders and of the TCP listener are as they were, also where the handler refused, panicked
    -- or waits for ever.
    pub relay_session_grows :
        (decoders : Decoders) (n : ℕ) (addr : Addr) (wire : Wire)
        → length r₀.mail_queue ≤ max_mail_buffer_size
        → (s : Session Relay) × (accept_session decoders
              (running_server inb conf fresh)
              n
              addr
              wire
              r₀
            ≡ some s)
          × Grown r₀ s.world
          × Over s
    relay_session_grows decoders n addr wire fits =
        relay_session_keeps inb conf fresh decoders (Grown r₀)
          (λ peer env r somebody few small. handled-Grown peer env r) n addr wire r₀
          (record {
            added = ([], sym (append-nil r₀.mail_queue));
            within = fits;
            error_queue = refl;
            sender_limiter = refl;
            tcp_handlers_limiter = refl;
            tcp_connections_limiter = refl;
          })
