-- ===== src/Config/Validation/Sound.antt =====
-- internal/config/config.go: what a configuration that Config.Validate accepts is like.
use service_reliability_watc.Common.{
  ℕ, ◌+◌, ◌≡◌, ◌≢◌, ◌⊎◌, inl, inr, true, false, not, ◌||◌, List, [], ◌∷◌, arith, All, All-map,
}
use service_reliability_watc.Common.Int.{pos, ◌≤ℤ◌, ◌<ℤ◌, ltb_ℤ}
use service_reliability_watc.Common.Float.{Float64}
use service_reliability_watc.Common.Text.{Text, text_eq, text_eq_iff}
use service_reliability_watc.Common.Clock.{after}
use service_reliability_watc.Common.Result.{ok, >>-eq-ok, >>=-eq-ok}
use service_reliability_watc.Config.Types.{EndpointConfig, MaintenanceWindow, Config}
use service_reliability_watc.Config.Validation.{
  Addresses, contains, reject_iff, validate_endpoint, check_endpoints, check_references,
  check_windows, is_empty, validate,
}
use service_reliability_watc.Config.Validation.Endpoints.{IsValidEndpoint}
use service_reliability_watc.Config.Validation.Accepts.{validate_endpoint_iff}

-- An id of one of the endpoints.
abbrev pub Listed : {F : Type 0} → Text → List (EndpointConfig F) → Type 0
Listed id [] = ⊥
Listed id (e ∷ es) = (e.id ≡ id) ⊎ Listed id es

-- No two endpoints share an id.
abbrev pub NoRepeat : {F : Type 0} → List (EndpointConfig F) → Type 0
NoRepeat [] = Unit
NoRepeat (e ∷ es) = All (λ f. f.id ≢ e.id) es × NoRepeat es

module _ {F : Type 0} (fl : Float64 F) (net : Addresses) where
  -- The state of the loop over the endpoints at its end.
  record Passed (seen : List Text) (es : List (EndpointConfig F)) (s : List Text) : Type 0 where
    valid_each : All (IsValidEndpoint fl net) es
    unseen : All (λ e. contains seen e.id ≡ false) es
    no_repeat : NoRepeat es
    known : (id : Text) → contains s id ≡ true → (contains seen id ≡ true) ⊎ Listed id es

  one_endpoint :
      (index : ℕ) (seen s : List Text) (e : EndpointConfig F) (es : List (EndpointConfig F))
      → check_endpoints fl net index seen (e ∷ es) ≡ ok s
      → (validate_endpoint fl net e ≡ ok tt)
        × (contains seen e.id ≡ false)
        × (check_endpoints fl net (index + 1) (e.id ∷ seen) es ≡ ok s)
  unfolding check_endpoints
  one_endpoint index seen s e es h = (ground arith, ground arith, ground arith)

  unseen-tail :
      (id : Text) (seen : List Text) (e : EndpointConfig F)
      → contains (id ∷ seen) e.id ≡ false
      → (contains seen e.id ≡ false) × (e.id ≢ id)
  unfolding contains
  unseen-tail id seen e h = (ground arith, ground (arith, text_eq_iff id e.id))

  known-tail :
      (e : EndpointConfig F) (es : List (EndpointConfig F)) (seen : List Text) (id : Text)
      → (contains (e.id ∷ seen) id ≡ true) ⊎ Listed id es
      → (contains seen id ≡ true) ⊎ Listed id (e ∷ es)
  unfolding contains
  known-tail e es seen id (inr l) = inr (inr l)
  known-tail e es seen id (inl c) = ground (arith, text_eq_iff e.id id)

  check_endpoints-Passed :
      (index : ℕ) (seen : List Text) (es : List (EndpointConfig F)) (s : List Text)
      → check_endpoints fl net index seen es ≡ ok s
      → Passed seen es s
  check_endpoints-Passed index seen [] s h = record {
    valid_each = tt;
    unseen = tt;
    no_repeat = tt;
    known = λ id c. inl (unfold check_endpoints in ground arith);
  }
  check_endpoints-Passed index seen (e ∷ es) s h =
      let (v, u, h') = one_endpoint index seen s e es h in
      let p = check_endpoints-Passed (index + 1) (e.id ∷ seen) es s h' in
      record {
        valid_each = ((validate_endpoint_iff fl net e).0 v, p.valid_each);
        unseen = (u, All-map _ _ (λ f c. (unseen-tail e.id seen f c).0) es p.unseen);
        no_repeat = (All-map _ _ (λ f c. (unseen-tail e.id seen f c).1) es p.unseen, p.no_repeat);
        known = λ id c. known-tail e es seen id (p.known id c);
      }

check_references_sound :
    (name : Text) (seen ids : List Text)
    → check_references name seen ids ≡ ok tt
    → All (λ id. contains seen id ≡ true) ids
unfolding check_references
check_references_sound name seen [] h = tt
check_references_sound name seen (id ∷ ids) h =
    (ground arith, check_references_sound name seen ids (ground arith))

-- A window has a name, ends after its start, and names only known ids.
abbrev pub IsWindow : (Text → Type 0) → MaintenanceWindow → Type 0
IsWindow Known w = (w.name ≢ []) × (w.start <ℤ w.end) × All Known w.endpoints

check_windows_sound :
    (index : ℕ) (seen : List Text) (ws : List MaintenanceWindow)
    → check_windows index seen ws ≡ ok tt
    → All (IsWindow (λ id. contains seen id ≡ true)) ws
unfolding check_windows
check_windows_sound index seen [] h = tt
check_windows_sound index seen (w ∷ ws) h =
    let (r, h1) = (>>-eq-ok _ _ tt).0 h in
    let (c, h2) = (>>-eq-ok _ _ tt).0 h1 in
    let b : (text_eq w.name [] || not (after w.end w.start)) ≡ false = (reject_iff _ _).0 r in
    (
      (
        ground (arith, text_eq_iff w.name []),
        ground arith,
        check_references_sound w.name seen w.endpoints c,
      ),
      check_windows_sound (index + 1) seen ws h2,
    )

module _ {F : Type 0} (fl : Float64 F) (net : Addresses) where
  pub record IsValid (c : Config F) : Type 0 where
    pub database : c.database.url ≢ []
    pub workers : pos 1 ≤ℤ c.scheduler.workers
    pub concurrency : pos 1 ≤ℤ c.scheduler.concurrency_limit
    pub not_empty : c.endpoints ≢ []
    pub each_endpoint : All (IsValidEndpoint fl net) c.endpoints
    pub distinct_ids : NoRepeat c.endpoints
    pub each_window : All (IsWindow (λ id. Listed id c.endpoints)) c.maintenance

  IsWindow-Listed :
      (es : List (EndpointConfig F)) (s : List Text) (w : MaintenanceWindow)
      → Passed fl net [] es s
      → IsWindow (λ id. contains s id ≡ true) w
      → IsWindow (λ id. Listed id es) w
  IsWindow-Listed es s w p (named, ordered, known) =
      (named, ordered, All-map _ _ (λ id c. listed id (p.known id c)) w.endpoints known)
    where
      listed : (id : Text) → (contains [] id ≡ true) ⊎ Listed id es → Listed id es
      listed id (inr l) = l
      listed id (inl c) = absurd (unfold contains in cc c)

  -- A configuration that Validate accepts has a database URL, at least one worker, a positive
  -- concurrency limit and at least one endpoint; every endpoint is valid and no two share an id; and
  -- every maintenance window has a name, ends after its start and names configured endpoints only.
  pub validate-IsValid : (c : Config F) → validate fl net c ≡ ok tt → IsValid c
  unfolding validate
  validate-IsValid c h =
      let (u, h1) = (>>-eq-ok _ _ tt).0 h in
      let (n, h2) = (>>-eq-ok _ _ tt).0 h1 in
      let (e, h3) = (>>-eq-ok _ _ tt).0 h2 in
      let (seen, q, h4) =
        >>=-eq-ok (check_endpoints fl net 0 [] c.endpoints)
          (λ seen. check_windows 0 seen c.maintenance) h3 in
      let p = check_endpoints-Passed fl net 0 [] c.endpoints seen q in
      let no_url : text_eq c.database.url [] ≡ false = (reject_iff _ _).0 u in
      let no_workers : (ltb_ℤ c.scheduler.workers (pos 1)
            || ltb_ℤ c.scheduler.concurrency_limit (pos 1))
          ≡ false =
        (reject_iff _ _).0 n in
      let no_empty : is_empty c.endpoints ≡ false = (reject_iff _ _).0 e in
      record {
        database = ground (arith, text_eq_iff c.database.url []);
        workers = ground arith;
        concurrency = ground arith;
        not_empty = λ k. cc (no_empty, k);
        each_endpoint = p.valid_each;
        distinct_ids = p.no_repeat;
        each_window =
            All-map _ _ (λ w. IsWindow-Listed c.endpoints seen w p) c.maintenance
              (check_windows_sound 0 seen c.maintenance h4);
      }
