-- ===== src/Login/Complete.antt =====
-- Who is let in by do_login_loop: a client with an accepted name, address and password.
use wzdftpd.Base.{
  strtok, blanks, skip_any, ℕ, Bool, true, false, not, ◌&&◌, List, [], ◌∷◌, ◌++◌, some, Bytes, ◌≡◌,
  ◌≢◌, refl, sym, ◌∙◌, ◌⊎◌, inl, inr, All, Bool-cases,
}
use wzdftpd.Protocol.{
  Token, tok_unknown, tok_help, tok_user, tok_pass, tok_pbsz, tok_feat, tok_opts, identify_token,
}
use wzdftpd.Login.{e_ok, Server, Context, do_user, do_user_ip, do_pass}
use wzdftpd.Login.Loop.{
  Event, Login, Next, goes_on, returns_0, Start, stored_name, chop, is_nil, accept_user, is_strict,
  dispatch, login_step, do_login_loop,
}
use wzdftpd.Login.Checks.{command, argument}

-- Commands that the login answers and goes on.
abbrev pub is_quiet : Token → Bool
is_quiet tok_help = true
is_quiet tok_pbsz = true
is_quiet tok_feat = true
is_quiet tok_opts = true
is_quiet _ = false

abbrev pub Quiet : Event → Type 0
Quiet e = (is_nil (chop e.line) ≡ true) ⊎ (is_quiet (command e) ≡ true)

-- Only what was sent changes.
abbrev Answered : Login → Next → Type 0
Answered l n = (r : List ℕ) × (n ≡ goes_on (record l { replies = r }))

quiet_dispatch :
    (t : Token) (s : Server) (l : Login) (rest : Bytes)
    → is_quiet t ≡ true
    → Answered l (dispatch t s l rest)
unfolding dispatch
quiet_dispatch tok_help s l rest h = (_, refl)
quiet_dispatch tok_pbsz s l rest h = (_, refl)
quiet_dispatch tok_feat s l rest h = (_, refl)
quiet_dispatch tok_opts s l rest h = (_, refl)
quiet_dispatch _ s l rest h = cc h

login_step-Quiet : (e : Event) (l : Login) → Quiet e → Answered l (login_step e l)
unfolding login_step
login_step-Quiet e l q = elim (Bool-cases (is_nil (chop e.line))) [
  | inl n ↦ rw n (l.replies, refl)
  | inr n ↦ elim q [ inl m ↦ cc (m, n) | inr m ↦ rw n (quiet_dispatch (command e) e.server l _ m) ]
]

-- The loop over quiet events and more.
do_login_loop-Quiet :
    (es rest : List Event) (l : Login)
    → All Quiet es
    → (r : List ℕ) × (do_login_loop (es ++ rest) l ≡ do_login_loop rest (record l { replies = r }))
unfolding do_login_loop
do_login_loop-Quiet [] rest l q = (l.replies, refl)
do_login_loop-Quiet (e ∷ es) rest l q =
    let (r, step) = login_step-Quiet e l q.0 in
    let (r', run) = do_login_loop-Quiet es rest (record l { replies = r }) q.1 in (r', rw step run)

no_command :
    (s : Bytes) (t : Token)
    → identify_token (strtok blanks s).0 ≡ t
    → t ≢ tok_unknown
    → is_nil s ≡ false
unfolding strtok skip_any identify_token
no_command [] t h n = absurd (n (sym h))
no_command (c ∷ s) t h n = refl

module _ (name pass : Bytes) (asks answers : Event) (c : Context) where
  abbrev asked : Context
  asked = (do_user asks.server name c).0

  abbrev proved : Start → Context
  proved start = (do_pass answers.server (stored_name start name) pass asked).0

  user_step :
      (l : Login)
      → l.context ≡ c
      → l.user_ok ≡ false
      → command asks ≡ tok_user
      → argument asks ≡ some name
      → (do_user asks.server name c).1 ≡ e_ok
      → do_user_ip asks.server asked ≡ e_ok
      → login_step asks l ≡ goes_on (accept_user name (record l { context = asked }))
  unfolding login_step dispatch
  user_step l is new t arg ok address =
      rw (no_command (chop asks.line) tok_user t (λ e. cc e), t, new, arg, is, ok, address) refl

  pass_step :
      (l : Login)
      → l.context ≡ asked
      → l.username ≡ stored_name l.start name
      → l.user_ok ≡ true
      → command answers ≡ tok_pass
      → argument answers ≡ some pass
      → (do_pass answers.server (stored_name l.start name) pass asked).1 ≡ e_ok
      → (is_strict answers.server.tls_type && not l.tls_ok) ≡ false
      → login_step answers l ≡ returns_0 (record l { context = proved l.start })
  unfolding login_step dispatch
  pass_step l is named ok t arg valid secure =
      rw
        (
          no_command (chop answers.line) tok_pass t (λ e. cc e),
          t,
          ok,
          arg,
          is,
          named,
          valid,
          secure,
        )
        refl

  -- A client is let in whose session, from a start with no user name, has only empty lines, HELP,
  -- FEAT, OPTS and PBSZ but for a USER and then a PASS: do_user and do_user_ip accept the name at its
  -- time, do_pass accepts the stored name with the password, and the server is not strict about TLS or
  -- TLS is on. The loop returns 0, whatever follows, with the context that do_pass leaves. The stored
  -- name is the name if it is shorter than 255 bytes, and otherwise its first 255 bytes and what the
  -- array happens to hold after them.
  pub do_login_loop-lets_in :
      (quiet later rest : List Event) (l : Login)
      → All Quiet quiet
      → All Quiet later
      → l.context ≡ c
      → l.user_ok ≡ false
      → command asks ≡ tok_user
      → argument asks ≡ some name
      → (do_user asks.server name c).1 ≡ e_ok
      → do_user_ip asks.server (do_user asks.server name c).0 ≡ e_ok
      → command answers ≡ tok_pass
      → argument answers ≡ some pass
      → (do_pass answers.server (stored_name l.start name) pass (do_user asks.server name c).0).1
        ≡ e_ok
      → (is_strict answers.server.tls_type && not l.tls_ok) ≡ false
      → (l' : Login) × (do_login_loop (quiet ++ (asks ∷ (later ++ answers ∷ rest))) l
          ≡ returns_0 l')
        × (l'.username ≡ stored_name l.start name)
        × (l'.context
            ≡ (do_pass answers.server
                (stored_name l.start name)
                pass
                (do_user asks.server name c).0).0)
  unfolding do_login_loop
  do_login_loop-lets_in quiet later rest l q q' is new t arg ok address t' arg' valid secure =
      let (r, run) = do_login_loop-Quiet quiet (asks ∷ (later ++ answers ∷ rest)) l q in
      let l1 = record l { replies = r } in
      let l2 = accept_user name (record l1 { context = asked }) in
      let (r', run') = do_login_loop-Quiet later (answers ∷ rest) l2 q' in
      let l3 = record l2 { replies = r' } in
      (
        record l3 { context = proved l.start },
        run
            ∙ rw (user_step l1 is new t arg ok address)
                (run' ∙ rw (pass_step l3 refl refl refl t' arg' valid secure) refl),
        refl,
        refl,
      )
