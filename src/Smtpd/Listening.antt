-- ===== src/Smtpd/Listening.antt =====
-- The loop of `Serve` of smtpd/smtpd.go: the goroutines of its connections, as steps in any order.
pub mod Limits
use smtprelay.Base.{
  ℕ, zero, suc, ◌+◌, ◌-◌, ◌≡◌, Bool, true, false, List, [], ◌∷◌, ◌++◌, ℤ, pos, negsuc, some,
  if◌then◌else◌,
}
use smtprelay.Smtpd
use smtprelay.Smtpd.{Server, Wire, Session, Addr, Course, going, new_session, reject}
use smtprelay.Smtpd.Login.{Decoders}
use smtprelay.Smtpd.Serve.{has_place, serve}

-- `conn`, with what it will deliver.
pub record Conn : Type 0 where
  pub addr : Addr
  pub wire : Wire

-- `limiter` is the number of places that are taken; `spawned` are the connections whose goroutines
-- have not asked for a place, `serving` those of the sessions under way, and `rejected` are the
-- sessions that were turned away. The sessions act on one world.
pub record Listening (W : Type 0) : Type 0 where
  pub limiter : ℕ
  pub spawned : List Conn
  pub serving : List Conn
  pub rejected : List (Session W)
  pub world : W

-- `if srv.MaxConnections > 0 { … }`
abbrev pub is_limited : ℤ → Bool
is_limited (pos zero) = false
is_limited (pos (suc k)) = true
is_limited (negsuc k) = false

module _ {W : Type 0} (decoders : Decoders) (server : Server W) where
  abbrev pub open_listener : W → Listening W
  open_listener w = record { limiter = 0; spawned = []; serving = []; rejected = []; world = w }

  abbrev session_of : Conn → W → Session W
  session_of c w = new_session server c.addr c.wire w

  -- `limiter <- struct{}{}`, and `<-limiter` at the end.
  abbrev pub placed : ℕ → ℕ
  placed n = if is_limited server.max_connections then n + 1 else n

  abbrev pub freed : ℕ → ℕ
  freed n = if is_limited server.max_connections then n - 1 else n

  -- A session takes effect at once, when it comes to its end.
  pub data Step (s : Listening W) (t : Listening W) : Type 0 where
    -- `conn, err := l.Accept()`, without an error
    accept : (c : Conn) → t ≡ record s { spawned = c ∷ s.spawned } → Step s t
    place :
        (before after : List Conn) (c : Conn)
        → s.spawned ≡ before ++ c ∷ after
        → has_place server.max_connections s.limiter ≡ true
        → t ≡ record s {
          limiter = placed s.limiter;
          spawned = before ++ after;
          serving = c ∷ s.serving;
        }
        → Step s t
    -- `session.reject()`
    turn_away :
        (before after : List Conn) (c : Conn)
        → s.spawned ≡ before ++ c ∷ after
        → has_place server.max_connections s.limiter ≡ false
        → t ≡ record s {
          spawned = before ++ after;
          rejected = reject (session_of c s.world) ∷ s.rejected;
        }
        → Step s t
    -- `session.serve()`, which comes back, and the end of its place
    end :
        (before after : List Conn) (c : Conn) (u : Session W)
        → s.serving ≡ before ++ c ∷ after
        → serve decoders server (session_of c s.world) ≡ some u
        → u.course ≡ going
        → t ≡ record s { limiter = freed s.limiter; serving = before ++ after; world = u.world }
        → Step s t
    -- The handler does not come back: the place stays taken.
    hang :
        (before after : List Conn) (c : Conn) (u : Session W)
        → s.serving ≡ before ++ c ∷ after
        → serve decoders server (session_of c s.world) ≡ some u
        → u.course ≡ Smtpd.hung
        → t ≡ record s { world = u.world }
        → Step s t

  pub data Reach (s : Listening W) : Listening W → Type 0 where
    here : Reach s s
    next : {t u : Listening W} → Reach s t → Step t u → Reach s u
