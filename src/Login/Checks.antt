-- ===== src/Login/Checks.antt =====
-- What a round of the login loop has checked when it accepts a user name or a password.
use wzdftpd.Base.{
  strtok, blanks, ℕ, Bool, true, false, not, ◌&&◌, [], ◌∷◌, Option, none, some, Bytes, ◌≡◌, ◌≢◌,
  refl, ◌∙◌, ap, ◌⊎◌, inl, inr, arith, if◌then◌else◌,
}
use wzdftpd.Protocol.{
  Token, tok_help, tok_user, tok_pass, tok_auth, tok_pbsz, tok_prot, tok_feat, tok_opts, tok_idnt,
  identify_token,
}
use wzdftpd.User.{User}
use wzdftpd.Login.{
  LoginCode, e_user_deleted, Server, Context, user_has_flag, flag_deleted, enter_home, do_user,
  do_user_ip, do_pass, pass_of_user,
}
use wzdftpd.Login.Loop.{
  Event, Login, goes_on, returns_0, returns_1, chop, ends, refusal, is_ok, on_user, after_do_user,
  accept_user, reply, on_pass, on_auth, on_prot, on_idnt, identified, is_strict, dispatch,
}

-- The command of a line, and its argument.
abbrev pub command : Event → Token
command e = identify_token (strtok blanks (chop e.line)).0

abbrev pub argument : Event → Option Bytes
argument e = (strtok ends (strtok blanks (chop e.line)).1).0

-- The line is a USER with a name, the first that is accepted; do_user accepts the name, or rejects it or
-- calls it deleted where unknown users were not to be rejected when the loop began; and do_user_ip accepts the address.
pub record UserAccepted (e : Event) (l : Login) (name : Bytes) : Type 0 where
  pub is_user : command e ≡ tok_user
  pub names : argument e ≡ some name
  pub first : l.user_ok ≡ false
  pub checked : refusal l.start.reject_nonexistant (do_user e.server name l.context).1 ≡ none
  pub address : is_ok (do_user_ip e.server (do_user e.server name l.context).0) ≡ true

-- The line is a PASS with a password; the user of the context exists and is not marked as deleted, the
-- backend accepts the name with the password, the home can be entered, and TLS is on where it must be.
pub record PassAccepted (e : Event) (l : Login) (pass : Bytes) (uid : ℕ) : Type 0 where
  pub is_pass : command e ≡ tok_pass
  pub gives : argument e ≡ some pass
  pub has_name : l.user_ok ≡ true
  pub user : User
  pub found : e.server.user_by_id l.context.userid ≡ some user
  pub not_deleted : user_has_flag user flag_deleted ≡ false
  pub validated : e.server.validate_pass l.username pass ≡ some uid
  pub home : e.server.enters_home uid ≡ true
  pub secure : (is_strict e.server.tls_type && not l.tls_ok) ≡ false

-- What stays the same in a round that accepts neither.
abbrev pub Same : Login → Login → Type 0
Same l l' =
    (l'.user_ok ≡ l.user_ok)
    × (l'.username ≡ l.username)
    × (l'.context.userid ≡ l.context.userid)
    × (l'.start ≡ l.start)

past_deleted :
    (c : Context) (deleted : Bool) (r : Context × LoginCode)
    → is_ok (if deleted then ((c, e_user_deleted)) else r).1 ≡ true
    → (deleted ≡ false) × (is_ok r.1 ≡ true) × ((if deleted then ((c, e_user_deleted)) else r) ≡ r)
past_deleted c true r h = cc h
past_deleted c false r h = (refl, h, refl)

past_strict :
    (l' : Login) (ok refused : Bool) (m : Login)
    → (if not ok
        then returns_1 (reply 421 m)
        else (if refused then returns_1 (reply 421 m) else returns_0 m))
      ≡ returns_0 l'
    → (ok ≡ true) × (refused ≡ false) × (m ≡ l')
past_strict l' false refused m h = cc h
past_strict l' true true m h = cc h
past_strict l' true false m h = (refl, refl, cc h)

module _ (s : Server) (l l' : Login) where
  auth-Same : (token : Option Bytes) → on_auth s l token ≡ goes_on l' → Same l l'
  auth-Same none h = cc h
  auth-Same (some token) h = ground arith

  auth-not_0 : (token : Option Bytes) → on_auth s l token ≢ returns_0 l'
  auth-not_0 none h = cc h
  auth-not_0 (some token) h = ground arith

  prot-Same : (token : Option Bytes) → on_prot l token ≡ goes_on l' → Same l l'
  prot-Same none h = cc h
  prot-Same (some token) h = ground arith

  identified-Same :
      (ident address : Option Bytes) (rest : Bytes)
      → identified s l ident address rest ≡ goes_on l'
      → Same l l'
  identified-Same none address rest h = cc h
  identified-Same (some ident) none rest h = cc h
  identified-Same (some ident) (some address) rest h = ground arith

  after_do_user-accepts :
      (name : Bytes) (m : Login) (r : Option ℕ)
      → after_do_user s name m r ≡ goes_on l'
      → (r ≡ none) × (is_ok (do_user_ip s m.context) ≡ true) × (accept_user name m ≡ l')
  after_do_user-accepts name m (some code) h = cc h
  after_do_user-accepts name m none h = ground arith

  after_do_user-not_0 :
      (name : Bytes) (m : Login) (r : Option ℕ) → after_do_user s name m r ≢ returns_0 l'
  after_do_user-not_0 name m (some code) h = cc h
  after_do_user-not_0 name m none h = ground arith

  -- The context after do_user.
  abbrev asked : Bytes → Login
  asked name = record l { context = (do_user s name l.context).0 }

  pub user-accepts :
      (arg : Option Bytes)
      → on_user s l arg ≡ goes_on l'
      → (name : Bytes) × (arg ≡ some name)
        × (refusal l.start.reject_nonexistant (do_user s name l.context).1 ≡ none)
        × (is_ok (do_user_ip s (do_user s name l.context).0) ≡ true)
        × (accept_user name (asked name) ≡ l')
  user-accepts none h = cc h
  user-accepts (some name) h =
      let (a, b, c) =
        after_do_user-accepts name (asked name)
          (refusal l.start.reject_nonexistant (do_user s name l.context).1) h in
      (name, refl, a, b, c)

  user-not_0 : (arg : Option Bytes) → on_user s l arg ≢ returns_0 l'
  user-not_0 none h = cc h
  user-not_0 (some name) h =
      after_do_user-not_0 name (asked name)
        (refusal l.start.reject_nonexistant (do_user s name l.context).1) h

  home-accepts :
      (c : Context) (v : Option ℕ)
      → is_ok (enter_home s v c).1 ≡ true
      → (uid : ℕ) × (v ≡ some uid)
        × (s.enters_home uid ≡ true)
        × ((enter_home s v c).0.userid ≡ uid)
  home-accepts c none h = cc h
  home-accepts c (some uid) h = (uid, refl, ground arith, refl)

  pub of_user-accepts :
      (name pass : Bytes) (c : Context) (u : Option User)
      → is_ok (pass_of_user s name pass c u).1 ≡ true
      → (user : User) × (u ≡ some user)
        × (user_has_flag user flag_deleted ≡ false)
        × (uid : ℕ) × (s.validate_pass name pass ≡ some uid)
        × (s.enters_home uid ≡ true)
        × ((pass_of_user s name pass c u).0.userid ≡ uid)
  of_user-accepts name pass c none h = cc h
  of_user-accepts name pass c (some user) h =
      let (d, k, same) =
        past_deleted c (user_has_flag user flag_deleted)
          (enter_home s (s.validate_pass name pass) c) h in
      let (uid, a, b, e) = home-accepts c (s.validate_pass name pass) k in
      (user, refl, d, uid, a, b, ap (λ r. r.0.userid) same ∙ e)

  pub pass-accepts :
      (arg : Option Bytes)
      → on_pass s l arg ≡ returns_0 l'
      → (pass : Bytes) × (arg ≡ some pass)
        × (is_ok (do_pass s l.username pass l.context).1 ≡ true)
        × ((is_strict s.tls_type && not l.tls_ok) ≡ false)
        × ((record l { context = (do_pass s l.username pass l.context).0 }) ≡ l')
  pass-accepts none h = cc h
  pass-accepts (some pass) h =
      let (a, b, c) =
        past_strict l' (is_ok (do_pass s l.username pass l.context).1)
          (is_strict s.tls_type && not l.tls_ok)
          (record l { context = (do_pass s l.username pass l.context).0 }) h in
      (pass, refl, a, b, c)

  pass-stops : (arg : Option Bytes) → on_pass s l arg ≢ goes_on l'
  pass-stops none h = cc h
  pass-stops (some pass) h = ground arith

  prot-not_0 : (token : Option Bytes) → on_prot l token ≢ returns_0 l'
  prot-not_0 none h = cc h
  prot-not_0 (some token) h = ground arith

  identified-not_0 :
      (ident address : Option Bytes) (rest : Bytes)
      → identified s l ident address rest ≢ returns_0 l'
  identified-not_0 none address rest h = cc h
  identified-not_0 (some ident) none rest h = cc h
  identified-not_0 (some ident) (some address) rest h = ground arith

  -- The tokens that on_idnt reads.
  abbrev ident_of : Bytes → Option Bytes × Bytes
  ident_of rest = strtok (b'@' ∷ []) rest

  abbrev address_of : Bytes → Option Bytes × Bytes
  address_of rest = strtok (b':' ∷ []) (ident_of rest).1

  idnt-not_0 : (rest : Bytes) → on_idnt s l rest ≢ returns_0 l'
  idnt-not_0 rest h =
      ground (arith, identified-not_0 (ident_of rest).0 (address_of rest).0 (address_of rest).1)

  idnt-Same : (rest : Bytes) → on_idnt s l rest ≡ goes_on l' → Same l l'
  idnt-Same rest h =
      ground (arith, identified-Same (ident_of rest).0 (address_of rest).0 (address_of rest).1)

  pub dispatch-0 :
      (t : Token) (rest : Bytes)
      → dispatch t s l rest ≡ returns_0 l'
      → (t ≡ tok_pass) × (l.user_ok ≡ true) × (on_pass s l (strtok ends rest).0 ≡ returns_0 l')
  unfolding dispatch
  dispatch-0 tok_pass rest h = ground arith
  dispatch-0 tok_user rest h = absurd (ground (arith, user-not_0 (strtok ends rest).0))
  dispatch-0 tok_auth rest h = absurd (auth-not_0 (strtok ends rest).0 h)
  dispatch-0 tok_prot rest h = absurd (prot-not_0 (strtok ends rest).0 h)
  dispatch-0 tok_idnt rest h = absurd (idnt-not_0 rest h)
  dispatch-0 _ rest h = cc h

  pub dispatch-goes_on :
      (t : Token) (rest : Bytes)
      → dispatch t s l rest ≡ goes_on l'
      → Same l l'
        ⊎ ((t ≡ tok_user) × (l.user_ok ≡ false) × (on_user s l (strtok ends rest).0 ≡ goes_on l'))
  unfolding dispatch
  dispatch-goes_on tok_help rest h = inl (ground arith)
  dispatch-goes_on tok_user rest h = inr (ground arith)
  dispatch-goes_on tok_pass rest h = absurd (ground (arith, pass-stops (strtok ends rest).0))
  dispatch-goes_on tok_auth rest h = inl (auth-Same (strtok ends rest).0 h)
  dispatch-goes_on tok_pbsz rest h = inl (ground arith)
  dispatch-goes_on tok_prot rest h = inl (prot-Same (strtok ends rest).0 h)
  dispatch-goes_on tok_feat rest h = inl (ground arith)
  dispatch-goes_on tok_opts rest h = inl (ground arith)
  dispatch-goes_on tok_idnt rest h = inl (idnt-Same rest h)
  dispatch-goes_on _ rest h = cc h
