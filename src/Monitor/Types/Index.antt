-- ===== src/Monitor/Types/Index.antt =====
-- internal/monitor/service.go: the map by id that New builds.
use service_reliability_watc.Common.{
  ◌≡◌, refl, ◌∙◌, Bool, true, false, ◌||◌, Option, none, some, List, [], ◌∷◌, arith,
}
use service_reliability_watc.Common.Text.{Text, text_eq}
use service_reliability_watc.Common.Assoc.{Assoc, lookup, insert, lookup-insert}
use service_reliability_watc.Domain.Types.{Endpoint}
use service_reliability_watc.Monitor.Types.{Options, Service, index, new_service}

module _ {F : Type 0} where
  -- Some endpoint has the id.
  abbrev pub is_configured : Text → List (Endpoint F) → Bool
  is_configured id [] = false
  is_configured id (e ∷ es) = text_eq e.id id || is_configured id es

  abbrev pub is_found : Option (Endpoint F) → Bool
  is_found none = false
  is_found (some e) = true

  pub is_found-some :
      (o : Option (Endpoint F)) → is_found o ≡ true → (e : Endpoint F) × (o ≡ some e)
  is_found-some none h = cc
  is_found-some (some e) h = (e, refl)

  pub is_found-none : (o : Option (Endpoint F)) → is_found o ≡ false → o ≡ none
  is_found-none none h = refl
  is_found-none (some e) h = cc

  is_found-index :
      (id : Text) (m : Assoc (Endpoint F)) (es : List (Endpoint F))
      → is_found (lookup id (index m es)) ≡ (is_configured id es || is_found (lookup id m))
  unfolding index
  is_found-index id m [] = refl
  is_found-index id m (e ∷ es) =
      is_found-index id (insert e.id e m) es ∙ ground (arith, lookup-insert e.id id e m)

  -- The ids of the map are those of the endpoints.
  abbrev pub IsIndexed : {R : Type 0} → Service F R → Type 0
  IsIndexed s = (id : Text) → is_found (lookup id s.by_id) ≡ is_configured id s.endpoints

  pub new_service-IsIndexed :
      {R : Type 0} (es : List (Endpoint F)) (repo : R) (o : Options)
      → IsIndexed (new_service es repo o)
  unfolding new_service lookup
  new_service-IsIndexed es repo o id = is_found-index id [] es ∙ ground arith
