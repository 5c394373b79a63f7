-- ===== src/Commands/DemoTarget/Modes.antt =====
-- cmd/demo-target/main.go: the mode that any requests leave, and the health that it shows.
use service_reliability_watc.Common.{
  ◌≡◌, ◌≢◌, refl, sym, ap, subst, ◌∙◌, ◌↔◌, ◌⊎◌, inl, inr, List, [], ◌∷◌, ◌++◌, All, arith,
}
use service_reliability_watc.Common.Text.{Text, codes, text_eq, text_eq_iff}
use service_reliability_watc.Web.Routes.{Request, query_get}
use service_reliability_watc.Commands.DemoTarget.{
  Reply, Route, health, control_get, control_post, unmatched, matched, route, health_reply,
  select_mode, serve, serve_all, first_mode,
}

abbrev pub IsMode : Text → Type 0
IsMode t = (t ≡ codes "healthy") ⊎ ((t ≡ codes "fail") ⊎ (t ≡ codes "slow"))

-- A request that asks for a mode that there is.
abbrev pub Chooses : Request → Text → Type 0
Chooses r m =
    (r.path ≡ codes "control" ∷ [])
    × (r.method ≡ codes "POST")
    × (query_get r (codes "mode") ≡ m)
    × IsMode m

abbrev pub ChoosesNone : Request → Type 0
ChoosesNone r = (m : Text) → ¬ Chooses r m

-- The mode of the last request that chooses one, or else the first mode.
abbrev pub IsLatest : Text → List Request → Text → Type 0
IsLatest mode rs m =
    (All ChoosesNone rs × (m ≡ mode))
    ⊎ ((left right : List Request) × (r : Request) × (rs ≡ left ++ r ∷ right)
        × Chooses r m
        × All ChoosesNone right)

select_mode-IsMode :
    (mode selected : Text)
    → (IsMode selected × ((select_mode mode selected).0 ≡ selected))
      ⊎ ((¬ IsMode selected) × ((select_mode mode selected).0 ≡ mode))
unfolding select_mode
select_mode-IsMode mode selected = ground (
  arith,
  text_eq_iff selected (codes "healthy"),
  text_eq_iff selected (codes "fail"),
  text_eq_iff selected (codes "slow"),
)

matched-control :
    (method : Text) (path : List Text)
    → matched method path ≡ control_post
    → (path ≡ codes "control" ∷ []) × (method ≡ codes "POST")
unfolding matched
matched-control method [] h = cc
matched-control method (a ∷ []) h =
    ground (arith, text_eq_iff a (codes "control"), text_eq_iff method (codes "POST"))
matched-control method (a ∷ b ∷ path) h = cc

control-matched :
    (method : Text) (path : List Text)
    → path ≡ codes "control" ∷ []
    → method ≡ codes "POST"
    → matched method path ≡ control_post
unfolding matched text_eq
control-matched method path p m = rw (p, m) refl

health-matched :
    (method : Text) (path : List Text)
    → path ≡ codes "health" ∷ []
    → method ≡ codes "GET"
    → matched method path ≡ health
unfolding matched text_eq
health-matched method path p m = rw (p, m) refl

-- Only the route of a change of mode chooses one.
Chooses-route : (r : Request) (m : Text) → Chooses r m → route r ≡ control_post
Chooses-route r m c = control-matched r.method r.path c.0 c.1

other_route-ChoosesNone : (r : Request) (x : Route) → route r ≡ x → control_post ≢ x → ChoosesNone r
other_route-ChoosesNone r x h other m c = other (cc (Chooses-route r m c, h))

module _ (unmatched_reply : Request → Reply) where
  -- Either a request chooses the mode that it leaves, or it leaves the mode alone.
  serve-Chooses :
      (mode : Text) (r : Request)
      → Chooses r (serve unmatched_reply mode r).0
        ⊎ (ChoosesNone r × ((serve unmatched_reply mode r).0 ≡ mode))
  unfolding serve
  serve-Chooses mode r = by (route r) refl
    where
      by :
          (x : Route)
          → route r ≡ x
          → Chooses r (serve unmatched_reply mode r).0
            ⊎ (ChoosesNone r × ((serve unmatched_reply mode r).0 ≡ mode))
      by health h = inr (other_route-ChoosesNone r health h (λ e. cc e), rw (h, serve) refl)
      by control_get h =
          inr (other_route-ChoosesNone r control_get h (λ e. cc e), rw (h, serve) refl)
      by unmatched h = inr (other_route-ChoosesNone r unmatched h (λ e. cc e), rw (h, serve) refl)
      by control_post h =
          let (path, method) = matched-control r.method r.path h in
          rw (h, serve)
            (elim (select_mode-IsMode mode (query_get r (codes "mode"))) [
              | inl (chosen, e) ↦ inl (path, method, sym e, rw e chosen)
              | inr (refused, e) ↦ inr (λ m c. refused (subst IsMode (sym c.2) c.3), e)
            ])

  serve_all-IsLatest :
      (mode : Text) (rs : List Request) → IsLatest mode rs (serve_all unmatched_reply mode rs)
  unfolding serve_all
  serve_all-IsLatest mode [] = inl (tt, refl)
  serve_all-IsLatest mode (r ∷ rs) =
      let next = (serve unmatched_reply mode r).0 in
      elim (serve_all-IsLatest next rs) [
        | inr (left, right, s, e, c, after) ↦
            inr (r ∷ left, right, s, ap (λ xs. r ∷ xs) e, c, after)
        | inl (after, e) ↦ elim (serve-Chooses mode r) [
          | inl c ↦ inr ([], rs, r, refl, subst (λ m. Chooses r m) (sym e) c, after)
          | inr (c, kept) ↦ inl ((c, after), e ∙ kept)
        ]
      ]

  IsLatest-IsMode :
      (mode : Text) (rs : List Request) (m : Text) → IsMode mode → IsLatest mode rs m → IsMode m
  IsLatest-IsMode mode rs m i (inl (c, e)) = subst IsMode (sym e) i
  IsLatest-IsMode mode rs m i (inr (left, right, r, e, c, after)) = c.3

  health_reply-IsMode :
      (m : Text)
      → IsMode m
      → (((health_reply m).status ≡ 503) ↔ (m ≡ codes "fail"))
        × (((health_reply m).status ≡ 200) ↔ (m ≢ codes "fail"))
        × (((health_reply m).delay ≡ 3) ↔ (m ≡ codes "slow"))
  unfolding health_reply
  health_reply-IsMode m i =
      ground (arith, text_eq_iff m (codes "fail"), text_eq_iff m (codes "slow"))

  -- After any requests to a new demonstration target: its mode is healthy, fail or slow; it is the mode
  -- of the last POST /control that asked for one of the three, or healthy where no request did; and
  -- GET /health is then answered 503 exactly where it is fail, 200 exactly where it is not, and after 3
  -- seconds exactly where it is slow; it leaves the mode alone.
  pub demo_target_health :
      (rs : List Request) (r : Request)
      → r.method ≡ codes "GET"
      → r.path ≡ codes "health" ∷ []
      → (m : Text) × (serve_all unmatched_reply first_mode rs ≡ m)
        × IsMode m
        × IsLatest first_mode rs m
        × (((serve unmatched_reply m r).1.status ≡ 503) ↔ (m ≡ codes "fail"))
        × (((serve unmatched_reply m r).1.status ≡ 200) ↔ (m ≢ codes "fail"))
        × (((serve unmatched_reply m r).1.delay ≡ 3) ↔ (m ≡ codes "slow"))
        × ((serve unmatched_reply m r).0 ≡ m)
  unfolding serve
  demo_target_health rs r get path =
      let m = serve_all unmatched_reply first_mode rs in
      let latest = serve_all-IsLatest first_mode rs in
      let mode = IsLatest-IsMode first_mode rs m (inl refl) latest in
      let (failing, fine, slow) = health_reply-IsMode m mode in
      rw (health-matched r.method r.path path get, serve)
        (m, refl, mode, latest, failing, fine, slow, refl)
