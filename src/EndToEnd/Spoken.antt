-- ===== src/EndToEnd/Spoken.antt =====
-- A mail transaction in the command lines that a client sends, from the line to the handler of the mail.
use smtprelay.Base.{List, [], ◌∷◌, ◌++◌, Bytes, codes}
use smtprelay.Smtpd.{Server, Session}
use smtprelay.Smtpd.Login.{Decoders}
use smtprelay.Smtpd.Serve.{handle}

module _ {W : Type 0} (decoders : Decoders) (server : Server W) where
  -- One line for each recipient.
  abbrev pub tell_all : List Bytes → Session W → Session W
  tell_all [] s = s
  tell_all (b ∷ bs) s = tell_all bs (handle decoders server (codes "RCPT TO:<" ++ b ++ codes ">") s)

  -- The lines of a transaction: MAIL, RCPT for each recipient, and DATA.
  abbrev pub tell : Bytes → List Bytes → Session W → Session W
  tell a bs s =
      handle decoders server (codes "DATA")
        (tell_all bs (handle decoders server (codes "MAIL FROM:<" ++ a ++ codes ">") s))
