-- ===== src/Login/Entry.antt =====
-- Whom do_login_loop lets in: the path of a session to the value 0.
use wzdftpd.Base.{
  strtok, blanks, Bool, true, false, List, [], ◌∷◌, ◌++◌, Option, none, some, Bytes, ◌≡◌, refl, sym,
  ◌∙◌, ap, ◌⊎◌, inl, inr, if◌then◌else◌,
}
use wzdftpd.Login.{do_user, do_pass}
use wzdftpd.Login.Loop.{
  Event, Login, Next, goes_on, returns_0, returns_1, crashes, stored_name, chop, ends, is_nil,
  login_step, then_, do_login_loop,
}
use wzdftpd.Login.Checks.{
  UserAccepted, PassAccepted, Same, command, user-accepts, of_user-accepts, pass-accepts,
  dispatch-0, dispatch-goes_on,
}

not_nil_0 :
    (b : Bool) (l l' : Login) (x : Next)
    → (if b then goes_on l else x) ≡ returns_0 l'
    → x ≡ returns_0 l'
not_nil_0 true l l' x h = cc h
not_nil_0 false l l' x h = h

not_nil_goes :
    (b : Bool) (l l' : Login) (x : Next)
    → (if b then goes_on l else x) ≡ goes_on l'
    → (l ≡ l') ⊎ (x ≡ goes_on l')
not_nil_goes true l l' x h = inl (cc h)
not_nil_goes false l l' x h = inr h

abbrev rest_of_line : Event → Bytes
rest_of_line e = (strtok blanks (chop e.line)).1

-- A round that returns 0 has accepted a password.
step-PassAccepted :
    (e : Event) (l l' : Login)
    → login_step e l ≡ returns_0 l'
    → (pass : Bytes) × PassAccepted e l pass l'.context.userid × (l'.username ≡ l.username)
unfolding login_step do_pass
step-PassAccepted e l l' h =
    let d = not_nil_0 (is_nil (chop e.line)) l l' _ h in
    let (t, ok, p) = dispatch-0 e.server l l' (command e) (rest_of_line e) d in
    let (pass, arg, code, strict, same) =
      pass-accepts e.server l l' (strtok ends (rest_of_line e)).0 p in
    let (user, found, kept, uid, valid, home, is) =
      of_user-accepts e.server l l' l.username pass l.context (e.server.user_by_id l.context.userid)
        code in
    let who : uid ≡ l'.context.userid = sym is ∙ ap (λ m. m.context.userid) same in
    (
      pass,
      record {
        is_pass = t;
        gives = arg;
        has_name = ok;
        user = user;
        found = found;
        not_deleted = kept;
        validated = rw (← who) valid;
        home = rw (← who) home;
        secure = strict;
      },
      sym (ap (λ m. m.username) same),
    )

-- A round that goes on has accepted a user name, or changed neither the name nor the user.
step-UserAccepted :
    (e : Event) (l l' : Login)
    → login_step e l ≡ goes_on l'
    → Same l l'
      ⊎ ((name : Bytes) × UserAccepted e l name
          × (l'.user_ok ≡ true)
          × (l'.username ≡ stored_name l.start name)
          × (l'.context.userid ≡ (do_user e.server name l.context).0.userid))
unfolding login_step
step-UserAccepted e l l' h = elim (not_nil_goes (is_nil (chop e.line)) l l' _ h) [
  | inl same ↦ inl (
    ap (λ m. m.user_ok) (sym same),
    ap (λ m. m.username) (sym same),
    ap (λ m. m.context.userid) (sym same),
    ap (λ m. m.start) (sym same),
  )
  | inr d ↦ elim (dispatch-goes_on e.server l l' (command e) (rest_of_line e) d) [
    | inl same ↦ inl same
    | inr (t, ok, p) ↦
        (let (name, arg, code, address, same) =
            user-accepts e.server l l' (strtok ends (rest_of_line e)).0 p in
          inr (
            name,
            record { is_user = t; names = arg; first = ok; checked = code; address = address },
            ap (λ m. m.user_ok) (sym same),
            ap (λ m. m.username) (sym same),
            ap (λ m. m.context.userid) (sym same),
          ))
  ]
]

-- The state after rounds that all go on.
abbrev pub going : Next → Option Login
going (goes_on l) = some l
going _ = none

abbrev pub and_then : Option Login → (Login → Option Login) → Option Login
and_then none f = none
and_then (some l) f = f l

unfoldable pub after : List Event → Login → Option Login
after [] l = some l
after (e ∷ es) l = and_then (going (login_step e l)) (after es)

then-returns_0 :
    (n : Next) (f : Login → Next) (l' : Login)
    → then_ n f ≡ returns_0 l'
    → (n ≡ returns_0 l') ⊎ ((l : Login) × (n ≡ goes_on l) × (f l ≡ returns_0 l'))
then-returns_0 (goes_on l) f l' h = inr (l, refl, h)
then-returns_0 (returns_0 l) f l' h = inl h
then-returns_0 (returns_1 l) f l' h = cc h
then-returns_0 crashes f l' h = cc h

-- A password is accepted in one of the events, for the name and the user that the state has.
LetIn : List Event → Login → Login → Type 0
LetIn es l l' =
    (before : List Event) × (e : Event) × (rest : List Event) × (es ≡ before ++ e ∷ rest)
    × (m : Login) × (after before l ≡ some m)
    × (m.username ≡ l.username)
    × (m.context.userid ≡ l.context.userid)
    × (pass : Bytes) × PassAccepted e m pass l'.context.userid

let_in :
    (es : List Event) (l l' : Login)
    → l.user_ok ≡ true
    → do_login_loop es l ≡ returns_0 l'
    → LetIn es l l'
unfolding do_login_loop LetIn after
let_in [] l l' ok h = cc h
let_in (e ∷ es) l l' ok h = elim (then-returns_0 (login_step e l) (do_login_loop es) l' h) [
  | inl now ↦
      (let (pass, p, n) = step-PassAccepted e l l' now in
        ([], e, es, refl, l, refl, refl, refl, pass, p))
  | inr (m, on, later) ↦ elim (step-UserAccepted e l m on) [
    | inl (u, n, i, f) ↦
        (let (before, x, rest, split, k, reached, name, who, pass, p) =
            let_in es m l' (u ∙ ok) later in
          (e ∷ before, x, rest, ap (◌∷◌ e) split, k, rw on reached, name ∙ n, who ∙ i, pass, p))
    | inr (name, a, u, n, i) ↦ cc (a.first, ok)
  ]
]

-- The path of a session that is let in.
pub record PathIn (es : List Event) (l l' : Login) : Type 0 where
  pub before : List Event
  pub asks : Event
  pub between : List Event
  pub answers : Event
  pub rest : List Event
  pub events : es ≡ before ++ asks ∷ between ++ answers ∷ rest
  pub first : Login
  pub reached : after before l ≡ some first
  pub name : Bytes
  pub accepted : UserAccepted asks first name
  pub second : Login
  pub between_them : and_then (going (login_step asks first)) (after between) ≡ some second
  pub same_start : first.start ≡ l.start
  pub same_name : second.username ≡ stored_name l.start name
  pub same_user : second.context.userid ≡ (do_user asks.server name first.context).0.userid
  pub pass : Bytes
  pub proved : PassAccepted answers second pass l'.context.userid

-- do_login_loop returns 0 only where, from a start at which no user name has been accepted, some line
-- is a USER whose name and address were accepted, and a later line is a PASS: at that time the user
-- that do_user had set exists and is not marked as deleted, the backend accepts the stored name with the
-- password as the user that the context ends with, its home can be entered, and TLS is on where the
-- server is strict. The stored name is the one that was accepted if it is shorter than 255 bytes, and
-- otherwise its first 255 bytes and what the array happens to hold after them; and whether unknown users
-- are rejected is what the configuration said before the loop.
pub do_login_loop-checked :
    (es : List Event) (l l' : Login)
    → l.user_ok ≡ false
    → do_login_loop es l ≡ returns_0 l'
    → PathIn es l l'
unfolding do_login_loop LetIn after
do_login_loop-checked [] l l' new h = cc h
do_login_loop-checked (e ∷ es) l l' new h =
    elim (then-returns_0 (login_step e l) (do_login_loop es) l' h) [
      | inl now ↦ (let (pass, p, n) = step-PassAccepted e l l' now in cc (p.has_name, new))
      | inr (m, on, later) ↦ elim (step-UserAccepted e l m on) [
        | inl (u, n, i, f) ↦
            (let p = do_login_loop-checked es m l' (u ∙ new) later in
              record {
                before = e ∷ p.before;
                asks = p.asks;
                between = p.between;
                answers = p.answers;
                rest = p.rest;
                events = ap (◌∷◌ e) p.events;
                first = p.first;
                reached = rw on p.reached;
                name = p.name;
                accepted = p.accepted;
                second = p.second;
                between_them = p.between_them;
                same_start = p.same_start ∙ f;
                same_name = p.same_name ∙ ap (λ s. stored_name s p.name) f;
                same_user = p.same_user;
                pass = p.pass;
                proved = p.proved;
              })
        | inr (name, a, u, n, i) ↦
            (let (before, x, rest, split, k, reached, same, who, pass, p) =
                let_in es m l' u later in
              record {
                before = [];
                asks = e;
                between = before;
                answers = x;
                rest = rest;
                events = ap (◌∷◌ e) split;
                first = l;
                reached = refl;
                name = name;
                accepted = a;
                second = k;
                between_them = rw on reached;
                same_start = refl;
                same_name = same ∙ n;
                same_user = who ∙ i;
                pass = pass;
                proved = p;
              })
      ]
    ]
