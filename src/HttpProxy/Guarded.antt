-- ===== src/HttpProxy/Guarded.antt =====
-- What the proxy of internal/dataplane/frontend/http/server.go lets out, and what it leaves open.
use cfwarp_cli.Prelude.{
  ◌≡◌, ◌⊎◌, inl, inr, refl, ◌∙◌, ℕ, ◌+◌, ◌-◌, Bool, true, false, not, String, ◌==◌, eq_iff, Option,
  none, some, List, [], ◌∷◌, arith, if_elim, if_cases,
}
use cfwarp_cli.HttpProxy.{
  Config, Request, Response, get, Act, replied, dialed, closed, established, relayed, sent, copied,
  dialed_over, failed_trip, body_closed, idle_closed, Trip, dialing, after_trip, Outside,
  challenge_header, basic_auth_header, authenticate, handle_connect, outgoing, forwarded,
  forward_to, handle_forward, handle,
}

-- The request has the credentials of the configuration, or it has none.
abbrev pub Authorized : Outside → Config → Request → Type 0
Authorized out cfg r =
    ((cfg.username ≡ "") × (cfg.password ≡ ""))
    ⊎ (get "Proxy-Authorization" r.header ≡ basic_auth_header out cfg.username cfg.password)

-- Every connection that was dialed is closed, or handed to the copies that close it, before the acts
-- end. `n` counts those of CONNECT; `busy` those of the request's own transport that a response may
-- still use, and `idle` those that it keeps. The end of the round trip with an error, and the close of
-- the body, make the busy ones idle.
abbrev pub LeavesNone : ℕ → ℕ → ℕ → List Act → Type 0
LeavesNone n busy idle [] = (n ≡ 0) × ((busy ≡ 0) × (idle ≡ 0))
LeavesNone n busy idle (replied status header ∷ acts) = LeavesNone n busy idle acts
LeavesNone n busy idle (dialed host true ∷ acts) = LeavesNone (n + 1) busy idle acts
LeavesNone n busy idle (dialed host false ∷ acts) = LeavesNone n busy idle acts
LeavesNone n busy idle (closed ∷ acts) = LeavesNone (n - 1) busy idle acts
LeavesNone n busy idle (established ∷ acts) = LeavesNone n busy idle acts
LeavesNone n busy idle (relayed ∷ acts) = LeavesNone (n - 1) busy idle acts
LeavesNone n busy idle (sent r ∷ acts) = LeavesNone n busy idle acts
LeavesNone n busy idle (copied response ∷ acts) = LeavesNone n busy idle acts
LeavesNone n busy idle (dialed_over addr true ∷ acts) = LeavesNone n (busy + 1) idle acts
LeavesNone n busy idle (dialed_over addr false ∷ acts) = LeavesNone n busy idle acts
LeavesNone n busy idle (failed_trip ∷ acts) = LeavesNone n 0 (idle + busy) acts
LeavesNone n busy idle (body_closed ∷ acts) = LeavesNone n 0 (idle + busy) acts
LeavesNone n busy idle (idle_closed ∷ acts) = LeavesNone n busy 0 acts

-- One answer to the client.
abbrev pub answers : List Act → ℕ
answers [] = 0
answers (replied status header ∷ acts) = answers acts + 1
answers (established ∷ acts) = answers acts + 1
answers (dialed host ok ∷ acts) = answers acts
answers (closed ∷ acts) = answers acts
answers (relayed ∷ acts) = answers acts
answers (sent r ∷ acts) = answers acts
answers (copied response ∷ acts) = answers acts
answers (dialed_over addr ok ∷ acts) = answers acts
answers (failed_trip ∷ acts) = answers acts
answers (body_closed ∷ acts) = answers acts
answers (idle_closed ∷ acts) = answers acts

pub record IsClean (acts : List Act) : Type 0 where
  pub closed_all : LeavesNone 0 0 0 acts
  pub answered : answers acts ≡ 1

-- A request that is turned away, or one that was authorized.
abbrev pub IsGuarded : Outside → Config → Request → List Act → Type 0
IsGuarded out cfg r acts = (acts ≡ replied 407 challenge_header ∷ []) ⊎ Authorized out cfg r

module _ (out : Outside) where
  handle_connect-IsClean : (r : Request) → IsClean (handle_connect out r)
  unfolding handle_connect
  handle_connect-IsClean r =
      if_elim IsClean (out.dial r.host)
        (if_elim (λ acts. IsClean (dialed r.host true ∷ acts)) (not out.can_hijack)
          (record { closed_all = (refl, (refl, refl)); answered = refl })
          (if_elim (λ acts. IsClean (dialed r.host true ∷ acts)) (not out.hijacks)
            (record { closed_all = (refl, (refl, refl)); answered = refl })
            (record { closed_all = (refl, (refl, refl)); answered = refl })))
        (record { closed_all = (refl, (refl, refl)); answered = refl })

  dialing-LeavesNone :
      (dials : List (String × Bool)) (acts : List Act)
      → ((busy : ℕ) → LeavesNone 0 busy 0 acts)
      → (busy : ℕ) → LeavesNone 0 busy 0 (dialing out dials acts)
  dialing-LeavesNone [] acts h busy = h busy
  dialing-LeavesNone ((addr, true) ∷ dials) acts h busy = dialing-LeavesNone dials acts h (busy + 1)
  dialing-LeavesNone ((addr, false) ∷ dials) acts h busy = dialing-LeavesNone dials acts h busy

  answers-dialing :
      (dials : List (String × Bool)) (acts : List Act)
      → answers (dialing out dials acts) ≡ answers acts
  answers-dialing [] acts = refl
  answers-dialing (d ∷ dials) acts = answers-dialing dials acts

  after_trip-LeavesNone : (o : Option Response) (busy : ℕ) → LeavesNone 0 busy 0 (after_trip out o)
  after_trip-LeavesNone none busy = (refl, (refl, refl))
  after_trip-LeavesNone (some response) busy = (refl, (refl, refl))

  answers-after_trip : (o : Option Response) → answers (after_trip out o) ≡ 1
  answers-after_trip none = refl
  answers-after_trip (some response) = refl

  forwarded-IsClean : (r : Request) (trip : Trip) → IsClean (forwarded out r trip)
  forwarded-IsClean r trip = record {
    closed_all = dialing-LeavesNone trip.dials _ (after_trip-LeavesNone trip.response) 0;
    answered = answers-dialing trip.dials _ ∙ answers-after_trip trip.response;
  }

  forward_to-IsClean : (r : Request) (o : Option String) → IsClean (forward_to out r o)
  forward_to-IsClean r none = record { closed_all = (refl, (refl, refl)); answered = refl }
  forward_to-IsClean r (some host) =
      if_elim IsClean (host == "") (record { closed_all = (refl, (refl, refl)); answered = refl })
        (forwarded-IsClean (outgoing out r) (out.round_trip (outgoing out r)))

  handle_forward-IsClean : (r : Request) → IsClean (handle_forward out r)
  unfolding handle_forward
  handle_forward-IsClean r = forward_to-IsClean r r.url_host

  authenticate-Authorized :
      (cfg : Config) (r : Request) → authenticate out cfg r ≡ true → Authorized out cfg r
  unfolding authenticate
  authenticate-Authorized cfg r h = ground (
    arith,
    h,
    eq_iff cfg.username "",
    eq_iff cfg.password "",
    eq_iff (get "Proxy-Authorization" r.header) (basic_auth_header out cfg.username cfg.password),
  )

  -- Whatever the world answers, a request gets one answer, and no connection that was dialed for it stays
  -- open but in the copies that close it; those of a forwarded request's own transport count as idle once
  -- its round trip has failed or the body is closed, and must then be closed as idle ones. Without the
  -- credentials of the configuration, where it has any, the answer is 407 and nothing goes out.
  pub handle-IsClean :
      (cfg : Config) (r : Request)
      → IsClean (handle out cfg r) × IsGuarded out cfg r (handle out cfg r)
  unfolding handle
  handle-IsClean cfg r = (
    if_elim IsClean (not (authenticate out cfg r))
        (record { closed_all = (refl, (refl, refl)); answered = refl })
        (if_elim IsClean (r.method == "CONNECT") (handle_connect-IsClean r)
          (handle_forward-IsClean r)),
    if_cases (IsGuarded out cfg r) (not (authenticate out cfg r)) (λ _. inl refl)
        (λ e. inr (authenticate-Authorized cfg r (ground (arith, e)))),
  )
