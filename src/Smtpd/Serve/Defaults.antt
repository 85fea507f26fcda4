-- ===== src/Smtpd/Serve/Defaults.antt =====
-- `configureDefaults` of smtpd/smtpd.go, which `ListenAndServe` and `Serve` both call.
use smtprelay.Base.{
  zero, suc, ◌≤◌, ◌≡◌, ◌≢◌, refl, ap, ◌∙◌, true, false, not, ◌&&◌, arith, length-append, pos,
  negsuc, codes, Bool-cases, inl, inr, ℤ,
}
use smtprelay.Smtpd.{Server}
use smtprelay.Smtpd.Serve.{configure_defaults, connections_or_default, with_numbers, with_names}

connections_nonzero : (n : ℤ) → connections_or_default n ≢ pos 0
connections_nonzero (pos zero) = λ e. ground arith
connections_nonzero (pos (suc n)) = λ e. ground arith
connections_nonzero (negsuc n) = λ e. ground arith

connections_again : (n : ℤ) → n ≢ pos 0 → connections_or_default n ≡ n
connections_again (pos zero) h = absurd (h refl)
connections_again (pos (suc n)) h = refl
connections_again (negsuc n) h = refl

module _ {W : Type 0} where
  -- What every server that is set up has.
  pub record Configured (server : Server W) : Type 0 where
    pub size : 1 ≤ server.max_message_size
    pub recipients : 1 ≤ server.max_recipients
    pub connections : server.max_connections ≢ pos 0
    pub read : 1 ≤ server.read_timeout
    pub write : 1 ≤ server.write_timeout
    pub text : 1 ≤ server.data_timeout

  with_numbers-Configured : (server : Server W) → Configured (with_numbers server)
  with_numbers-Configured server = record {
    size = ground arith;
    recipients = ground arith;
    connections = connections_nonzero server.max_connections;
    read = ground arith;
    write = ground arith;
    text = ground arith;
  }

  with_numbers_again : (server : Server W) → Configured server → with_numbers server ≡ server
  with_numbers_again server c =
      ground (arith, c, connections_again server.max_connections c.connections)

  with_names_again : (server : Server W) → with_names (with_names server) ≡ with_names server
  with_names_again server = ground (arith, length-append server.hostname (codes " ESMTP ready."))

  with_names-Configured : (server : Server W) → Configured server → Configured (with_names server)
  with_names-Configured server c = record {
    size = c.size;
    recipients = c.recipients;
    connections = c.connections;
    read = c.read;
    write = c.write;
    text = c.text;
  }

  failed_again :
      (server : Server W)
      → Configured server
      → (server.force_tls && not server.has_tls_config) ≡ true
      → configure_defaults server ≡ (false, server)
  unfolding configure_defaults
  failed_again server c lacks = rw (with_numbers_again server c, lacks) refl

  done_again :
      (server : Server W)
      → Configured server
      → (server.force_tls && not server.has_tls_config) ≡ false
      → configure_defaults (with_names server) ≡ (true, with_names server)
  unfolding configure_defaults
  done_again server c has =
      let same = with_numbers_again (with_names server) (with_names-Configured server c) in
      rw has (ap (λ t. (true, with_names t)) same ∙ ap (λ t. (true, t)) (with_names_again server))

  -- The set-up fails exactly when TLS is forced and not configured. Afterwards no limit and no timeout
  -- is 0, and a second call, as `Serve` makes it behind `ListenAndServe`, changes nothing and ends as
  -- the first one did.
  pub configure_defaults_lem :
      (server : Server W)
      → let (fine, next) = configure_defaults server in
        (fine ≡ not (server.force_tls && not server.has_tls_config))
        × Configured next
        × (configure_defaults next ≡ (fine, next))
  unfolding configure_defaults
  configure_defaults_lem server =
      let next = with_numbers server in
      let c = with_numbers-Configured server in
      elim (Bool-cases (next.force_tls && not next.has_tls_config)) [
        | inl lacks ↦ rw lacks (refl, c, failed_again next c lacks)
        | inr has ↦ rw has (refl, with_names-Configured next c, done_again next c has)
      ]
