-- ===== src/Cloud/Server/Accounts/Login.antt =====
-- A login of cloud-infra/internal/server/server.go, and the requests that follow it.
use soul_room_edge_platform.Base.{
  ◌≤◌, String, ◌≡◌, inl, inr, refl, sym, ap, subst, ◌∙◌, some, ◌!=◌, arith, Bool-cases,
  Option-cases,
}
use soul_room_edge_platform.Base.Int.{move}
use soul_room_edge_platform.Base.Dict.{lookup, insert, lookup-insert}
use soul_room_edge_platform.Cloud.Model.{Time, User, Session}
use soul_room_edge_platform.Cloud.Store.{Store, save_locked-contents}
use soul_room_edge_platform.Cloud.Store.Accounts.{save_session, session_by_token}
use soul_room_edge_platform.Cloud.Server.{
  Outcome, failure, success, Library, Request, Calls, Handled, bearer, request_token,
}
use soul_room_edge_platform.Cloud.Server.Settings.{Config}
use soul_room_edge_platform.Cloud.Server.Accounts.{
  LoginRequest, new_session, verified_user, sign_in, login,
}

module _ (lib : Library) (cfg : Config) (calls : Calls) where
  saved_session :
      (session : Session) (s : Store)
      → lookup session.token_hash (save_session (calls 1) session s).1.contents.sessions
        ≡ some session
  unfolding save_session
  saved_session session s = ground (
    arith,
    save_locked-contents (calls 1).disk (record s {
      contents = record s.contents {
        sessions = insert session.token_hash session s.contents.sessions;
      };
    }),
    lookup-insert session.token_hash session.token_hash session s.contents.sessions,
  )

  -- A successful login, its session and its cookie.
  abbrev IsLogin : LoginRequest → User → String → Store → Handled → Type 0
  IsLogin request user token s answer =
      let session = new_session lib (calls 0) user.id cfg.session_ttl token in
      (verified_user lib (calls 0) request s ≡ some user)
      × (answer.0.set_cookie ≡ some token)
      × (lookup session.token_hash answer.1.contents.sessions ≡ some session)

  signed_in_cases :
      (user : User) (drawn : Outcome String) (s : Store)
      → (sign_in lib cfg calls drawn user s).0.status ≡ 200
      → (token : String) × ((sign_in lib cfg calls drawn user s).0.set_cookie ≡ some token)
        × (let session = new_session lib (calls 0) user.id cfg.session_ttl token in
            lookup session.token_hash (sign_in lib cfg calls drawn user s).1.contents.sessions
            ≡ some session)
  unfolding sign_in
  signed_in_cases user (failure message) s ok = absurd (ground arith)
  signed_in_cases user (success token) s ok =
      let session = new_session lib (calls 0) user.id cfg.session_ttl token in
      elim (Option-cases (save_session (calls 1) session s).0) [
        | inr (x, failed) ↦ absurd (ground arith)
        | inl saved ↦
            (token, rw (sign_in, saved) refl, rw (sign_in, saved) (saved_session session s))
      ]

  login_cases :
      (req : Request) (body : Outcome LoginRequest) (drawn : Outcome String) (s : Store)
      → (login lib cfg calls req body drawn s).0.status ≡ 200
      → (request : LoginRequest) × (user : User) × (token : String) × (body ≡ success request)
        × IsLogin request user token s (login lib cfg calls req body drawn s)
  unfolding login
  login_cases req (failure message) drawn s ok = absurd (ground arith)
  login_cases req (success request) drawn s ok = elim (Bool-cases (req.method != "POST")) [
    | inl other ↦ absurd (ground arith)
    | inr post ↦ elim (Option-cases (verified_user lib (calls 0) request s)) [
      | inl e ↦ absurd (ground arith)
      | inr (user, e) ↦
          let same : login lib cfg calls req (success request) drawn s
              ≡ sign_in lib cfg calls drawn user s =
            ground arith in
          let (token, cookie, stored) =
            signed_in_cases user drawn s (ap (λ (h : Handled). h.0.status) (sym same) ∙ ok) in
          (
            request,
            user,
            token,
            refl,
            subst (IsLogin request user token s) (sym same) (e, cookie, stored),
          )
    ]
  ]

  valid_session :
      (now : Time) (token : String) (user : User) (s : Store)
      → let session = new_session lib (calls 0) user.id cfg.session_ttl token in
        lookup session.token_hash s.contents.sessions ≡ some session
        → now ≤ session.expires_at
        → (session_by_token lib.sha256_hex now token s).0 ≡ some session
  unfolding session_by_token
  valid_session now token user s found early = ground arith

  -- After a login that is answered 200, a request that carries the cookie of the answer, without a
  -- bearer token, has the session of the user whose password was verified, until its time is over.
  pub login-session_by_token :
      (req : Request) (body : Outcome LoginRequest) (drawn : Outcome String) (s : Store)
      (now : Time) (later : Request)
      → (login lib cfg calls req body drawn s).0.status ≡ 200
      → bearer later.authorization ≡ ""
      → later.session_cookie ≡ (login lib cfg calls req body drawn s).0.set_cookie
      → now ≤ move ((calls 0).now 1) cfg.session_ttl
      → (request : LoginRequest) × (user : User) × (session : Session) × (body ≡ success request)
        × (verified_user lib (calls 0) request s ≡ some user)
        × (session.user_id ≡ user.id)
        × ((session_by_token lib.sha256_hex now
              (request_token later)
              (login lib cfg calls req body drawn s).1).0
            ≡ some session)
  login-session_by_token req body drawn s now later ok bare carried early =
      let (request, user, token, read, (verified, cookie, stored)) =
        login_cases req body drawn s ok in
      let session = new_session lib (calls 0) user.id cfg.session_ttl token in
      let same : request_token later ≡ token = ground (arith, bare, carried, cookie) in
      (
        request,
        user,
        session,
        read,
        verified,
        refl,
        rw same
            (valid_session now token user (login lib cfg calls req body drawn s).1 stored early),
      )
