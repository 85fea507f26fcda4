-- ===== src/EndToEnd/Authenticating.antt =====
-- PLAIN, between `Auth` of the client and `handleAUTH` of a session.
use smtprelay.Base.{
  ℕ, suc, ◌≤◌, ◌==◌, ◌≡◌, refl, ◌∙◌, true, false, Option, none, some, [], ◌∷◌, ◌++◌, Bytes, codes,
  arith, length, length-append, All, eqb, split, fields, words_from, is_space, to_upper,
}
use smtprelay.Client.{answered, Network, Client, cmd}
use smtprelay.Client.Greeted.{Greeted}
use smtprelay.Client.Login.{Base64, plain_response, plain_auth, auth_line, client_auth, auth_loop}
use smtprelay.Client.Login.Plain.{trusted, auth_trusted}
use smtprelay.Smtpd
use smtprelay.Smtpd.{Peer, Failure, plain_error, going, Server, Session, reply}
use smtprelay.Smtpd.Login.{Decoders, handle_auth}
use smtprelay.Smtpd.Serve.{handle, auth}
use smtprelay.EndToEnd.{Other, incoming, session_network, ask_session}
use smtprelay.EndToEnd.Lines.{parsed, handle_as}
use smtprelay.EndToEnd.Asking.{asked, behind, reply-sent}

-- A text without a zero byte.
abbrev pub IsText : Bytes → Type 0
IsText a = All (λ c. (c == 0) ≡ false) a

-- What RFC 4648 says of an encoding and of its decoding: one word, not an empty one if there is
-- anything to encode, from which the text comes back.
pub record IsCodec (decoders : Decoders) (base64 : Base64) : Type 0 where
  pub one_word : (s : Bytes) → All (λ c. is_space c ≡ false) (base64.encode s)
  pub some_word : (s : Bytes) → 1 ≤ length s → 1 ≤ length (base64.encode s)
  pub decodes : (s : Bytes) → decoders.decode64 (base64.encode s) ≡ some s

split-last : (a : Bytes) → IsText a → split 0 a ≡ a ∷ []
unfolding split
split-last [] h = refl
split-last (c ∷ a) (one, h) = ground (arith, split-last a h)

split-first : (a b : Bytes) → IsText a → split 0 (a ++ 0 ∷ b) ≡ a ∷ split 0 b
unfolding split
split-first [] b h = refl
split-first (c ∷ a) b (one, h) = ground (arith, split-first a b h)

split-plain_response :
    (i u p : Bytes)
    → IsText i
    → IsText u
    → IsText p
    → split 0 (plain_response i u p) ≡ i ∷ u ∷ p ∷ []
split-plain_response i u p hi hu hp =
    rw (split-first i (u ++ 0 ∷ p) hi, split-first u p hu, split-last p hp) refl

words_from-word : (a : Bytes) → All (λ c. is_space c ≡ false) a → words_from true a ≡ a ∷ []
unfolding words_from
words_from-word [] h = refl
words_from-word (c ∷ a) (one, h) = rw (one, words_from-word a h) refl

fields-auth :
    (a : Bytes)
    → All (λ c. is_space c ≡ false) a
    → 1 ≤ length a
    → fields (codes "AUTH PLAIN " ++ a) ≡ codes "AUTH" ∷ codes "PLAIN" ∷ a ∷ []
unfolding fields words_from
fields-auth [] h few = elim few [ ]
fields-auth (c ∷ a) (one, h) few = rw (one, words_from-word a h) refl

module _ {W : Type 0} (decoders : Decoders) (server : Server W) where
  handle-auth :
      (s : Session W) (a : Bytes)
      → All (λ c. is_space c ≡ false) a
      → 1 ≤ length a
      → handle decoders server (codes "AUTH PLAIN " ++ a) s
        ≡ handle_auth decoders server (codes "AUTH" ∷ codes "PLAIN" ∷ a ∷ []) s
  unfolding Smtpd.Serve.verb_of to_upper eqb split
  handle-auth s a h few =
      handle_as decoders server s _ _ auth
        (parsed _ (codes "AUTH") (a ∷ []) _ _ (fields-auth a h few) refl) refl

  authenticated :
      (s : Session W) (check : Peer → Bytes → Bytes → Option Failure) (a i u p : Bytes)
      → server.authenticator ≡ some check
      → 1 ≤ length s.peer.helo_name
      → s.tls ≡ true
      → decoders.decode64 a ≡ some (plain_response i u p)
      → split 0 (plain_response i u p) ≡ i ∷ u ∷ p ∷ []
      → check s.peer u p ≡ none
      → handle_auth decoders server (codes "AUTH" ∷ codes "PLAIN" ∷ a ∷ []) s
        ≡ reply 235
            (codes "OK, you are now authenticated")
            (record s { peer = record s.peer { username = u; password = p } })
  unfolding handle_auth eqb to_upper
  authenticated s check a i u p checks named secret decoded parts fine =
      let known : (length s.peer.helo_name == 0) ≡ false = ground (arith, named) in
      rw (checks, known, secret, decoded, parts, fine) refl

-- The client, where its side allows PLAIN, over a session of a server with an authenticator, under
-- TLS and behind a name: if the authenticator takes the name and the password, none of the three
-- parts with a zero byte, and their encoding of 65500 bytes at most, `Auth` gives no error on any
-- fuel but 0, and the session has the peer under exactly this name and this password.
pub client_auth-accepted :
    {W : Type 0} (decoders : Decoders) (server : Server W) (base64 : Base64)
    (check : Peer → Bytes → Bytes → Option Failure) (identity username password host : Bytes)
    (k : ℕ) (c : Client (Other W))
    → IsCodec decoders base64
    → server.authenticator ≡ some check
    → IsText identity
    → IsText username
    → IsText password
    → Greeted c
    → trusted c host ≡ true
    → c.remote.session.is_closed ≡ false
    → c.remote.session.course ≡ going
    → length (base64.encode (plain_response identity username password)) ≤ 65500
    → c.remote.session.tls ≡ true
    → 1 ≤ length c.remote.session.peer.helo_name
    → check c.remote.session.peer username password ≡ none
    → (d : Client (Other W)) × (client_auth base64
          (session_network decoders server)
          (plain_auth identity username password host)
          (suc k)
          c
        ≡ some (none, d))
      × (d.remote.session.peer
          ≡ record c.remote.session.peer { username = username; password = password })
unfolding auth_loop cmd reply
client_auth-accepted {W} decoders server base64 check i u p host k c codec checks hi hu hp g trust
      still goes few secret named fine =
    let net : Network (Other W) = session_network decoders server in
    let s : Session W = incoming [] c.remote.session in
    let response = plain_response i u p in
    let word = base64.encode response in
    let line = auth_line base64 (codes "PLAIN") response in
    let t : Session W =
      reply 235 (codes "OK, you are now authenticated")
        (record s { peer = record s.peer { username = u; password = p } }) in
    let long : 1 ≤ length word =
      codec.some_word response (omega (arith, length-append i (0 ∷ (u ++ 0 ∷ p)))) in
    let run : handle decoders server line s ≡ t =
      handle-auth decoders server s word (codec.one_word response) long
      ∙ authenticated decoders server s check word i u p checks named secret
          (codec.decodes response) (split-plain_response i u p hi hu hp) fine in
    let told : ask_session decoders server line c.remote
        ≡ (answered 235 (codes "OK, you are now authenticated"), record c.remote { session = t }) =
      asked decoders server line c.remote t 235 _ run
        (reply-sent 235 (codes "OK, you are now authenticated")
          (record s { peer = record s.peer { username = u; password = p } }) still)
        (still, goes, omega (arith, few)) refl in
    (
      behind line c t 235 (codes "OK, you are now authenticated"),
      auth_trusted net base64 i u p host (suc k) c g trust ∙ rw told refl,
      refl,
    )
