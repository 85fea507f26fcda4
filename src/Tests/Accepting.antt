-- ===== src/Tests/Accepting.antt =====
-- The SMTP listener, on rounds of its socket.
use smtprelay.Base.{true, false, List, [], ◌∷◌, ◌≡◌, refl, some}
use smtprelay.Listener.Smtp.Accepting.{
  AcceptError, new_conn, failure, Round, connection, stopped_error, accept_conn, AcceptEnds,
  accept_conn_lem,
}

abbrev pause : AcceptError
pause = record { text = []; is_net_error = true; is_timeout = true; is_temporary = true }

-- A round that times out, one with a connection, and one with a connection after the stop.
abbrev rounds : List Round
rounds =
    record { accepted = failure pause; is_stopped = false }
    ∷ record { accepted = new_conn 1; is_stopped = false }
    ∷ record { accepted = new_conn 2; is_stopped = true }
    ∷ []

first_call :
    accept_conn rounds
    ≡ some (connection 1, record { accepted = new_conn 2; is_stopped = true } ∷ [])
unfolding accept_conn
first_call = refl

second_call :
    accept_conn (record { accepted = new_conn 2; is_stopped = true } ∷ [])
    ≡ some (stopped_error, [])
unfolding accept_conn
second_call = refl

accept_conn_lem_example : AcceptEnds rounds
accept_conn_lem_example = accept_conn_lem rounds
