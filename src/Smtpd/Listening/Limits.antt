-- ===== src/Smtpd/Listening/Limits.antt =====
-- How many sessions the SMTP server serves at one time, and what it tells the others.
use smtprelay.Base.{
  ℕ, zero, suc, ◌+◌, ◌-◌, ◌≤◌, ◌≡◌, refl, sym, ap, ◌∙◌, true, false, List, [], ◌∷◌, ◌++◌, ℤ, pos,
  negsuc, some, if◌then◌else◌, arith, length, length-append, All, codes,
}
use smtprelay.Listener.{Envelope}
use smtprelay.Smtpd.{Peer, Server, Wire, Session, Addr, new_session, reject, reply, close}
use smtprelay.Smtpd.Command.{world_after, deliver}
use smtprelay.Smtpd.Login.{Decoders}
use smtprelay.Smtpd.Serve.{has_place, serve, accept_session}
use smtprelay.Smtpd.Serve.Keeping.{Deliverable}
use smtprelay.Smtpd.Serve.Ending.{accept_session_keeps}
use smtprelay.Smtpd.Listening.{
  Listening, is_limited, open_listener, Step, accept, place, turn_away, end, hang, Reach, here,
  next,
}
use mathlib.Core.Path.{subst}

-- A session that was told nothing but that the server is too busy, and is closed.
abbrev pub IsTurnedAway : {W : Type 0} → Session W → Type 0
IsTurnedAway s =
    (s.sent
      ≡ record { code = pos 421; more = false; message = codes "Too busy. Try again later." } ∷ [])
    × (s.is_closed ≡ true)

module _ {W : Type 0} (decoders : Decoders) (server : Server W) (P : W → Type 0)
    (keeps : (peer : Peer) (env : Envelope) (w : W)
      → Deliverable server peer env
      → P w
      → P (world_after (deliver server peer env w))) where
  -- The places are those of the sessions under way, and within the limit, if there is one.
  abbrev pub Places : ℤ → ℕ → ℕ → Type 0
  Places (pos zero) n served = Unit
  Places (pos (suc k)) n served = (n ≡ served) × (served ≤ suc k)
  Places (negsuc k) n served = Unit

  pub record Within (s : Listening W) : Type 0 where
    pub places : Places server.max_connections s.limiter (length s.serving)
    pub turned_away : All IsTurnedAway s.rejected
    pub kept : P s.world

  Places-place :
      (m : ℤ) (n served : ℕ)
      → has_place m n ≡ true
      → Places m n served
      → Places m (if is_limited m then n + 1 else n) (suc served)
  Places-place (pos zero) n served free p = tt
  Places-place (pos (suc k)) n served free p = (ground arith, ground arith)
  Places-place (negsuc k) n served free p = tt

  Places-end :
      (m : ℤ) (n served : ℕ)
      → Places m n (suc served)
      → Places m (if is_limited m then n - 1 else n) served
  Places-end (pos zero) n served p = tt
  Places-end (pos (suc k)) n served p = (ground arith, ground arith)
  Places-end (negsuc k) n served p = tt

  one_less :
      {A : Type 0} (before after : List A) (a : A)
      → length (before ++ a ∷ after) ≡ suc (length (before ++ after))
  one_less before after a =
      omega (arith, length-append before (a ∷ after), length-append before after)

  reject-IsTurnedAway :
      (addr : Addr) (wire : Wire) (w : W) → IsTurnedAway (reject (new_session server addr wire w))
  unfolding reject new_session reply close
  reject-IsTurnedAway addr wire w = (refl, refl)

  has_first : (m : ℤ) → has_place m 0 ≡ true
  has_first (pos zero) = refl
  has_first (pos (suc k)) = ground arith
  has_first (negsuc k) = refl

  served_kept :
      (addr : Addr) (wire : Wire) (w : W) (u : Session W)
      → serve decoders server (new_session server addr wire w) ≡ some u
      → P w
      → P u.world
  unfolding accept_session
  served_kept addr wire w u run p =
      let (t, ends, q, over) = accept_session_keeps decoders server P keeps 0 addr wire w p in
      let same : serve decoders server (new_session server addr wire w) ≡ some t =
        rw (has_first server.max_connections) at ends in
      let one : t ≡ u = cc in subst (λ t. P t.world) one q

  Step-Within : {s t : Listening W} → Step decoders server s t → Within s → Within t
  Step-Within {s} (accept c same) v =
      subst Within (sym same)
        (record { places = v.places; turned_away = v.turned_away; kept = v.kept })
  Step-Within {s} (place before after c waits free same) v = subst Within (sym same) (record {
    places = Places-place server.max_connections s.limiter (length s.serving) free v.places;
    turned_away = v.turned_away;
    kept = v.kept;
  })
  Step-Within {s} (turn_away before after c waits full same) v = subst Within (sym same) (record {
    places = v.places;
    turned_away = (reject-IsTurnedAway c.addr c.wire s.world, v.turned_away);
    kept = v.kept;
  })
  Step-Within {s} (end before after c u serves run back same) v =
      let fewer : length s.serving ≡ suc (length (before ++ after)) =
        ap length serves ∙ one_less before after c in
      subst Within (sym same) (record {
        places =
            Places-end server.max_connections s.limiter (length (before ++ after))
              (rw fewer at v.places);
        turned_away = v.turned_away;
        kept = served_kept c.addr c.wire s.world u run v.kept;
      })
  Step-Within {s} (hang before after c u serves run stuck same) v =
      subst Within (sym same) (record {
        places = v.places;
        turned_away = v.turned_away;
        kept = served_kept c.addr c.wire s.world u run v.kept;
      })

  open-Within : (w : W) → P w → Within (open_listener decoders server w)
  open-Within w p = record { places = nobody server.max_connections; turned_away = tt; kept = p }
    where
      nobody : (m : ℤ) → Places m 0 0
      nobody (pos zero) = tt
      nobody (pos (suc k)) = (refl, omega arith)
      nobody (negsuc k) = tt

  -- However connections come, and their sessions begin, end or hang: if `MaxConnections` is
  -- positive, the places that are taken are those of the sessions under way, and these are no more
  -- than `MaxConnections`; each session that was turned away was told that the server is too busy,
  -- and nothing else, and was closed; and what the handler keeps on the envelopes that a session
  -- may hand to it, is kept as long as the server runs.
  pub Reach-Within :
      (w : W)
      → P w
      → {s : Listening W} → Reach decoders server (open_listener decoders server w) s
      → Within s
  Reach-Within w p here = open-Within w p
  Reach-Within w p (next r step) = Step-Within step (Reach-Within w p r)
