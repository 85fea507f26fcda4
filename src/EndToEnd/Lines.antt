-- ===== src/EndToEnd/Lines.antt =====
-- How the server reads the command lines that the client sends.
use smtprelay.Base.{
  ◌==◌, ◌≡◌, refl, ap, true, false, List, [], ◌∷◌, ◌++◌, Bytes, codes, eqb, arith, All, is_space,
  words_from, fields, split, to_upper,
}
use smtprelay.Smtpd.{Server, Session}
use smtprelay.Smtpd.Command.{
  Command, parse_line, handle_mail, handle_rcpt, handle_data, handle_quit,
}
use smtprelay.Smtpd.Login.{Decoders}
use smtprelay.Smtpd.Serve.{Verb, mail, rcpt, text, quit, handle, dispatch, verb_of}
use smtprelay.Smtpd.Serve.Carried.{bracketed}

-- An address that stands in a command as one word, without the colon at which the server cuts.
abbrev pub IsPlain : Bytes → Type 0
IsPlain a = All (λ c. (is_space c ≡ false) × ((c == b':') ≡ false)) a

words_from-closed :
    (a rest : Bytes)
    → IsPlain a
    → words_from true (a ++ b'>' ∷ 32 ∷ rest) ≡ (a ++ b'>' ∷ []) ∷ words_from false rest
unfolding words_from
words_from-closed [] rest h = refl
words_from-closed (c ∷ a) rest ((space, colon), h) = rw (space, words_from-closed a rest h) refl

words_from-last : (a : Bytes) → IsPlain a → words_from true (a ++ b'>' ∷ []) ≡ (a ++ b'>' ∷ []) ∷ []
unfolding words_from
words_from-last [] h = refl
words_from-last (c ∷ a) ((space, colon), h) = rw (space, words_from-last a h) refl

split-plain : (a : Bytes) → IsPlain a → split b':' (a ++ b'>' ∷ []) ≡ (a ++ b'>' ∷ []) ∷ []
unfolding split
split-plain [] h = refl
split-plain (c ∷ a) ((space, colon), h) = ground (arith, split-plain a h)

fields-rcpt :
    (a : Bytes)
    → IsPlain a
    → fields (codes "RCPT TO:<" ++ a ++ codes ">")
      ≡ codes "RCPT" ∷ (codes "TO:<" ++ a ++ codes ">") ∷ []
unfolding fields words_from
fields-rcpt a h = rw (words_from-last a h) refl

split-to :
    (a : Bytes)
    → IsPlain a
    → split b':' (codes "TO:<" ++ a ++ codes ">") ≡ codes "TO" ∷ bracketed a ∷ []
unfolding split
split-to a h = rw (split-plain a h) refl

fields-mail :
    (a : Bytes)
    → IsPlain a
    → fields (codes "MAIL FROM:<" ++ a ++ codes ">")
      ≡ codes "MAIL" ∷ (codes "FROM:<" ++ a ++ codes ">") ∷ []
unfolding fields words_from
fields-mail a h = rw (words_from-last a h) refl

fields_mail_body :
    (a : Bytes)
    → IsPlain a
    → fields (codes "MAIL FROM:<" ++ a ++ codes "> BODY=8BITMIME")
      ≡ codes "MAIL" ∷ (codes "FROM:<" ++ a ++ codes ">") ∷ codes "BODY=8BITMIME" ∷ []
unfolding fields words_from
fields_mail_body a h = rw (words_from-closed a (codes "BODY=8BITMIME") h) refl

split-from :
    (a : Bytes)
    → IsPlain a
    → split b':' (codes "FROM:<" ++ a ++ codes ">") ≡ codes "FROM" ∷ bracketed a ∷ []
unfolding split
split-from a h = rw (split-plain a h) refl

pub parsed :
    (line : Bytes) (word : Bytes) (words : List Bytes) (first : Bytes) (params : List Bytes)
    → fields line ≡ word ∷ first ∷ words
    → split b':' first ≡ params
    → parse_line line ≡ record {
      line = line;
      action = to_upper word;
      words = word ∷ first ∷ words;
      params = params;
    }
unfolding parse_line
parsed line word words first params f s =
    rw (f, parse_line)
      (ap
        (λ p. record {
          line = line;
          action = to_upper word;
          words = word ∷ first ∷ words;
          params = p;
        })
        s)

module _ {W : Type 0} (decoders : Decoders) (server : Server W) (s : Session W) where
  pub handle_as :
      (line : Bytes) (cmd : Command) (v : Verb)
      → parse_line line ≡ cmd
      → verb_of cmd.action ≡ v
      → handle decoders server line s ≡ dispatch decoders server v cmd s
  unfolding handle
  handle_as line cmd v p q = rw p (rw q refl)

  pub handle-rcpt :
      (a : Bytes)
      → IsPlain a
      → handle decoders server (codes "RCPT TO:<" ++ a ++ codes ">") s
        ≡ handle_rcpt server (codes "TO" ∷ bracketed a ∷ []) s
  unfolding verb_of eqb to_upper
  handle-rcpt a h =
      handle_as _ _ rcpt (parsed _ (codes "RCPT") [] _ _ (fields-rcpt a h) (split-to a h)) refl

  pub handle-mail :
      (a : Bytes)
      → IsPlain a
      → handle decoders server (codes "MAIL FROM:<" ++ a ++ codes ">") s
        ≡ handle_mail server (codes "FROM" ∷ bracketed a ∷ []) s
  unfolding verb_of eqb to_upper
  handle-mail a h =
      handle_as _ _ mail (parsed _ (codes "MAIL") [] _ _ (fields-mail a h) (split-from a h)) refl

  pub handle_mail_body :
      (a : Bytes)
      → IsPlain a
      → handle decoders server (codes "MAIL FROM:<" ++ a ++ codes "> BODY=8BITMIME") s
        ≡ handle_mail server (codes "FROM" ∷ bracketed a ∷ []) s
  unfolding verb_of eqb to_upper
  handle_mail_body a h =
      handle_as _ _ mail
        (parsed _ (codes "MAIL") (codes "BODY=8BITMIME" ∷ []) _ _ (fields_mail_body a h)
          (split-from a h))
        refl

  pub handle_begin : handle decoders server (codes "DATA") s ≡ handle_data server s
  unfolding verb_of eqb to_upper parse_line fields words_from
  handle_begin = handle_as (codes "DATA") _ text refl refl

  pub handle_end : handle decoders server (codes "QUIT") s ≡ handle_quit server s
  unfolding verb_of eqb to_upper parse_line fields words_from
  handle_end = handle_as (codes "QUIT") _ quit refl refl
