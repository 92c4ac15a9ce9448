-- ===== src/Auth/FirstSource.antt =====
-- Which source of a request decides, and what the handler is told.
use lucky_market.Base.{
  String, true, false, Option, none, some, List, [], ◌∷◌, ◌++◌, ◌≡◌, refl, ap, ◌⊎◌, inl, inr, All,
  Bool-cases, if◌then◌else◌,
}
use lucky_market.Auth.{
  AuthSource, AuthInfo, Time, Transport, AuthOptions, Attempt, absent, refused, accepted, now_or,
  with_defaults,
}
use lucky_market.Auth.Checks.{err_or_last}
use lucky_market.Auth.Jwt.{JwtLibrary}
use lucky_market.Auth.Gateway.{Crypto}
use lucky_market.Auth.Middleware.{
  Context, Reply, handled, unauthorized, skips, authenticate_source, try_sources, answer_of,
  authenticate, admit, serve, auth_middleware,
}
use lucky_market.Auth.Defaults.{with_defaults-required}
use lucky_market.Auth.Vetted.OfSession.{IsSessionVetted, session_attempt}
use lucky_market.Auth.Vetted.OfGateway.{IsGatewayVetted, gateway_attempt}
use lucky_market.Auth.Vetted.OfJwt.{IsJwtVetted, jwt_attempt}

module _ {W K F : Type 0} (lib : JwtLibrary W K F) (crypto : Crypto) where
  -- what an info of the source has passed
  abbrev pub IsVetted : AuthOptions W K → Transport → Time → AuthSource → AuthInfo → Type 0
  IsVetted opts tr now AuthSource.gateway i = IsGatewayVetted crypto opts.gateway tr now i
  IsVetted opts tr now AuthSource.jwt i = IsJwtVetted lib opts.jwt tr now i
  IsVetted opts tr now AuthSource.session i = IsSessionVetted opts.session tr now i

  abbrev pub IsSilent : AuthOptions W K → Transport → Time → AuthSource → Type 0
  IsSilent opts tr now source = authenticate_source lib crypto opts tr now source ≡ absent

  -- the deciding source is behind silent ones
  abbrev pub Decides : AuthOptions W K → Transport → Time → AuthSource → List AuthSource → Type 0
  Decides opts tr now source sources =
      (before : List AuthSource) × (after : List AuthSource) × (sources ≡ before ++ source ∷ after)
      × All (IsSilent opts tr now) before

  -- Nobody tried; or a source that decides refused; or one that decides accepted an info.
  abbrev pub IsDecided :
      AuthOptions W K → Transport → Time → List AuthSource → String ⊎ Option AuthInfo → Type 0
  IsDecided opts tr now sources r =
      All (IsSilent opts tr now) sources × (r ≡ inl "missing authentication credentials")
      ⊎ ((source : AuthSource) × (e : String) × Decides opts tr now source sources
          × (authenticate_source lib crypto opts tr now source ≡ refused e)
          × (r ≡ inl e))
      ⊎ ((source : AuthSource) × (i : AuthInfo) × Decides opts tr now source sources
          × (i.source ≡ source)
          × IsVetted opts tr now source i
          × (r ≡ inr (some i)))

  abbrev IsSourceAttempt : AuthOptions W K → Transport → Time → AuthSource → Attempt → Type 0
  IsSourceAttempt opts tr now source a =
      (a ≡ absent)
      ⊎ ((e : String) × (a ≡ refused e))
      ⊎ ((i : AuthInfo) × (a ≡ accepted i) × (i.source ≡ source) × IsVetted opts tr now source i)

  module _ (opts : AuthOptions W K) (tr : Transport) (now : Time) where
    abbrev Strict : Type 0
    Strict =
        (opts.session.require_device ≡ true)
        × (opts.session.require_expires ≡ true)
        × (opts.gateway.require_device ≡ true)
        × (opts.gateway.require_expires ≡ true)

    source_attempt :
        Strict
        → (source : AuthSource)
        → IsSourceAttempt opts tr now source (authenticate_source lib crypto opts tr now source)
    unfolding authenticate_source
    source_attempt (sd, se, gd, ge) AuthSource.gateway =
        gateway_attempt crypto opts.gateway tr now gd ge
    source_attempt (sd, se, gd, ge) AuthSource.jwt = jwt_attempt lib opts.jwt tr now
    source_attempt (sd, se, gd, ge) AuthSource.session = session_attempt opts.session tr now sd se

    behind :
        (s source : AuthSource) (ss : List AuthSource)
        → IsSilent opts tr now s
        → Decides opts tr now source ss
        → Decides opts tr now source (s ∷ ss)
    behind s source ss silent (before, after, cut, quiet) =
        (s ∷ before, after, ap (λ x. s ∷ x) cut, (silent, quiet))

    skip_silent :
        (s : AuthSource) (ss : List AuthSource) (r : String ⊎ Option AuthInfo)
        → IsSilent opts tr now s
        → IsDecided opts tr now ss r
        → IsDecided opts tr now (s ∷ ss) r
    skip_silent s ss r silent (inl (quiet, e)) = inl ((silent, quiet), e)
    skip_silent s ss r silent (inr (inl (source, e, decides, failed, is))) =
        inr (inl (source, e, behind s source ss silent decides, failed, is))
    skip_silent s ss r silent (inr (inr (source, i, decides, from, vetted, is))) =
        inr (inr (source, i, behind s source ss silent decides, from, vetted, is))

    abbrev tried : List AuthSource → String ⊎ Option AuthInfo
    tried = try_sources lib crypto opts tr now none

    tried_none : tried [] ≡ inl "missing authentication credentials"
    unfolding try_sources
    tried_none = refl

    tried_step :
        (s : AuthSource) (ss : List AuthSource) (a : Attempt)
        → authenticate_source lib crypto opts tr now s ≡ a
        → tried (s ∷ ss) ≡ (
            if a.attempted
            then answer_of lib crypto a
            else try_sources lib crypto opts tr now (err_or_last a.failure none) ss)
    unfolding try_sources err_or_last
    tried_step s ss a e = rw e refl

    no_last : err_or_last none none ≡ none
    unfolding err_or_last
    no_last = refl

    tried-IsDecided :
        Strict → (sources : List AuthSource) → IsDecided opts tr now sources (tried sources)
    tried-IsDecided strict [] = inl (tt, tried_none)
    tried-IsDecided strict (s ∷ ss) = elim (source_attempt strict s) [
      | inl silent ↦
          rw (tried_step s ss absent silent, no_last)
            (skip_silent s ss (tried ss) silent (tried-IsDecided strict ss))
      | inr (inl (e, refusal)) ↦
          inr (inl (s, e, ([], ss, refl, tt), refusal, tried_step s ss (refused e) refusal))
      | inr (inr (i, acceptance, of_source, vetted)) ↦ inr (
          inr
            (s, i, ([], ss, refl, tt), of_source, vetted, tried_step s ss (accepted i) acceptance))
    ]

  module _ {R A : Type 0} where
    -- the handler is told the info, and without one it is not called
    abbrev pub IsAnswer :
        (Context → R → A) → Context → R → Reply A → String ⊎ Option AuthInfo → Type 0
    IsAnswer handler ctx req reply (inl e) = reply ≡ unauthorized e
    IsAnswer handler ctx req reply (inr none) = ⊥
    IsAnswer handler ctx req reply (inr (some i)) =
        reply ≡ handled (handler (record ctx { auth_info = some i }) req)

    abbrev pub IsGated :
        Time
        → AuthOptions W K
        → (Context → R → A)
        → Context
        → R
        → Option Transport
        → Reply A
        → Type 0
    IsGated time_now o handler ctx req none reply = reply ≡ unauthorized "missing transport context"
    IsGated time_now o handler ctx req (some tr) reply =
        (skips o.skipper tr ≡ true) × (reply ≡ handled (handler ctx req))
        ⊎ (skips o.skipper tr ≡ false)
          × ((r : String ⊎ Option AuthInfo) × IsDecided (with_defaults time_now o) tr
                (now_or time_now o.now) (with_defaults time_now o).sources r
              × IsAnswer handler ctx req reply r)

    admit-IsAnswer :
        (opts : AuthOptions W K) (tr : Transport) (now : Time) (sources : List AuthSource)
        (handler : Context → R → A) (ctx : Context) (req : R) (r : String ⊎ Option AuthInfo)
        → IsDecided opts tr now sources r
        → IsAnswer handler ctx req (admit lib crypto handler ctx req r) r
    admit-IsAnswer opts tr now sources handler ctx req (inl e) d = refl
    admit-IsAnswer opts tr now sources handler ctx req (inr (some i)) d = refl
    admit-IsAnswer opts tr now sources handler ctx req (inr none) (inl (q, e)) = cc
    admit-IsAnswer opts tr now sources handler ctx req (inr none) (inr (inl (s, x, d, f, e))) = cc
    admit-IsAnswer opts tr now sources handler ctx req (inr none) (inr (inr (s, i, d, o, v, e))) =
        cc

    -- Whatever the options say: a request that the skipper lets pass reaches the handler as it is.
    -- Any other reaches it only with an info that the first source that was tried has accepted, all
    -- the sources before it being silent: the info bears the source, and passed the checks of it,
    -- with a device and an expiration. It is refused with the error of that source, with no later
    -- source asked, or where no source was tried.
    pub auth_middleware-IsGated :
        (time_now : Time) (o : AuthOptions W K) (handler : Context → R → A) (ctx : Context)
        (req : R)
        → IsGated time_now o handler ctx req ctx.server_transport
            (auth_middleware lib crypto time_now o handler ctx req)
    unfolding auth_middleware authenticate with_defaults
    auth_middleware-IsGated time_now o handler ctx req = go ctx.server_transport
      where
        opts : AuthOptions W K
        opts = with_defaults time_now o

        decided :
            (tr : Transport)
            → IsDecided opts tr
                (now_or time_now o.now)
                opts.sources
                (authenticate lib crypto opts tr (now_or time_now o.now))
        decided tr =
            let (sd, se, gd, ge) = with_defaults-required time_now o in
            tried-IsDecided opts tr (now_or time_now o.now) (sd, se, gd, ge) opts.sources

        go :
            (t : Option Transport)
            → IsGated time_now o handler ctx req t
                (serve lib crypto opts (now_or time_now o.now) handler ctx req t)
        go none = refl
        go (some tr) = elim (Bool-cases (skips o.skipper tr)) [
          | inl skipped ↦ rw skipped (inl (refl, refl))
          | inr kept ↦ rw kept (
              inr (
                refl,
                (
                  authenticate lib crypto opts tr (now_or time_now o.now),
                  decided tr,
                  admit-IsAnswer opts tr (now_or time_now o.now) opts.sources handler ctx req _
                      (decided tr),
                ),
              ))
        ]
