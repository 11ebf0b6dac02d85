-- ===== src/Bindings/Strict.antt =====
-- strictHandler of internal/api/v1/server.gen.go: it decodes a request, calls the server and sends the
-- response. json.Decoder is a parameter by the type of the body. A request and a response that Go passes
-- as `any` have their types here; `unexpected` is the response of another type, by its name.
use inwheel_server.Prelude.{String, Option, none, some, List, [], ◌∷◌, if◌then◌else◌}
use inwheel_server.Prelude.Texts.{append}
use inwheel_server.Prelude.Result.{Error, message, is_panic, Result, ok, err, Action}
use inwheel_server.Models.Profile.{AccessibilityProfile}
use inwheel_server.Models.Place.{Place}
use inwheel_server.Middleware.Http.{Body, Request, Exchange, Handler}
use inwheel_server.Api.Errors.{Chain, other, members}
use inwheel_server.Api.List.{ListParams}
use inwheel_server.Bindings.Params.{Bound, bound, unbound}
use inwheel_server.Bindings.Responses.{
  Encoder, RevokeKeyResponse, RegisterResponse, ListPlacesResponse, CreatePlaceResponse,
  GetPlaceResponse, PatchResponse, visit_revoke_key, visit_register, visit_list_places,
  visit_create_place, visit_get_place, visit_patch,
}
use inwheel_server.Bindings.Wrapper.{ServerInterface}

-- What a strict handler finds in its context.
pub record Context : Type 0 where
  pub request : Option Request
  pub api_key_id : String

abbrev pub context_of : Request → Context
context_of r = record { request = none; api_key_id = r.api_key_id }

pub data Reply (A : Type 0) : Type 0 where
  nil_reply : Reply A
  reply : A → Reply A
  unexpected : String → Reply A

-- The server may change its state; a strict middleware may write, too.
abbrev pub StrictHandlerFunc : Type 0 → Type 0 → Type 0 → Type 0
StrictHandlerFunc S Q A = Context → Request → Q → Exchange × S → Result (Reply A) × (Exchange × S)

abbrev pub StrictMiddlewareFunc : Type 0 → Type 1
StrictMiddlewareFunc S = (Q A : Type 0) → StrictHandlerFunc S Q A → String → StrictHandlerFunc S Q A

pub record StrictServerInterface (S : Type 0) : Type 0 where
  pub revoke_key : Context → Action S (Reply RevokeKeyResponse)
  pub register : Context → String → Action S (Reply RegisterResponse)
  pub list_places : Context → ListParams → Action S (Reply ListPlacesResponse)
  pub create_place : Context → Place → Action S (Reply CreatePlaceResponse)
  pub get_place : Context → String → Action S (Reply GetPlaceResponse)
  pub patch_place_accessibility :
      Context → String × AccessibilityProfile → Action S (Reply PatchResponse)

-- json.NewDecoder(r.Body).Decode(&body)
pub record Decoder : Type 0 where
  pub email : Body → Bound Chain String
  pub place : Body → Bound Chain Place
  pub profile : Body → Bound Chain AccessibilityProfile

pub record StrictOptions (S : Type 0) : Type 0 where
  pub request_error_handler : Chain → Handler S
  pub response_error_handler : Error → Handler S

-- fmt.Errorf("can't decode JSON body: %w", err)
unfoldable pub undecodable : Chain → Chain
undecodable ((k, reason), es) =
    ((other, append "can't decode JSON body: " reason), members ((k, reason), es))

abbrev pub served : {S Q A : Type 0} → (Context → Q → Action S (Reply A)) → StrictHandlerFunc S Q A
served f ctx r q (w, s) = let (a, s') = f ctx q s in (a, (w, s'))

-- `for _, middleware := range sh.middlewares { handler = middleware(handler, …) }`
unfoldable pub strictly :
    {S Q A : Type 0}
    → List (StrictMiddlewareFunc S)
    → String
    → StrictHandlerFunc S Q A
    → StrictHandlerFunc S Q A
strictly [] op h = h
strictly {S} {Q} {A} (m ∷ ms) op h = strictly ms op (m Q A h op)

module _ {S : Type 0} (enc : Encoder) (o : StrictOptions S) where
  abbrev pub sent_or : Request → S → Option Error × Exchange → Exchange × S
  sent_or r s (none, w) = (w, s)
  sent_or r s (some e, w) = o.response_error_handler e r (w, s)

  -- A panic of the handler is not recovered: net/http closes the connection, and no status is sent.
  abbrev pub failing : Error → Handler S
  failing e r x = if is_panic e then x else o.response_error_handler e r x

  abbrev pub respond :
      {A : Type 0}
      → (A → Exchange → Option Error × Exchange)
      → Request
      → Result (Reply A) × (Exchange × S)
      → Exchange × S
  respond visit r (err e, x) = failing e r x
  respond visit r (ok nil_reply, x) = x
  respond visit r (ok (unexpected t), x) =
      o.response_error_handler (message (append "unexpected response type: " t)) r x
  respond visit r (ok (reply a), (w, s)) = sent_or r s (visit a w)

  abbrev pub with_body : {B : Type 0} → Bound Chain B → (B → Handler S) → Handler S
  with_body (bound b) h = h b
  with_body (unbound e) h = o.request_error_handler (undecodable e)

  module _ (ssi : StrictServerInterface S) (middlewares : List (StrictMiddlewareFunc S))
      (dec : Decoder) where
    abbrev pub operate :
        {Q A : Type 0}
        → String
        → (Context → Q → Action S (Reply A))
        → (A → Exchange → Option Error × Exchange)
        → Q
        → Handler S
    operate op f visit q r x =
        respond visit r (strictly middlewares op (served f) (context_of r) r q x)

    unfoldable pub strict_revoke_key : Handler S
    strict_revoke_key =
        operate "RevokeKey" (λ ctx (_ : Unit {0}). ssi.revoke_key ctx) (visit_revoke_key enc) tt

    unfoldable pub strict_register : Handler S
    strict_register r =
        with_body (dec.email r.body) (operate "Register" ssi.register (visit_register enc)) r

    unfoldable pub strict_list_places : ListParams → Handler S
    strict_list_places = operate "ListPlaces" ssi.list_places (visit_list_places enc)

    unfoldable pub strict_create_place : Handler S
    strict_create_place r =
        with_body (dec.place r.body)
          (operate "CreatePlace" ssi.create_place (visit_create_place enc)) r

    unfoldable pub strict_get_place : String → Handler S
    strict_get_place = operate "GetPlace" ssi.get_place (visit_get_place enc)

    unfoldable pub strict_patch_place_accessibility : String → Handler S
    strict_patch_place_accessibility id r =
        with_body (dec.profile r.body)
          (λ p.
            operate "PatchPlaceAccessibility" ssi.patch_place_accessibility (visit_patch enc)
              (id, p))
          r

    -- NewStrictHandlerWithOptions
    abbrev pub strict_handler : ServerInterface S
    strict_handler = record {
      revoke_key = strict_revoke_key;
      register = strict_register;
      list_places = strict_list_places;
      create_place = strict_create_place;
      get_place = strict_get_place;
      patch_place_accessibility = strict_patch_place_accessibility;
    }
