-- ===== src/Server/Router.antt =====
-- internal/server/server.go: the routes of New, behind AuthMiddleware. gin's redirects are left out.
use qudata_agent.Common.{
  refl, ℕ, false, Option, none, some, List, [], is_nil, ◌≡◌, ◌∷◌, ◌&&◌, ◌⊎◌, if◌then◌else◌,
  Bool-cases, inl, inr, subst, sym,
}
use qudata_agent.Common.Text.{Text, str, text_eq}
use qudata_agent.Server.Auth.{authorize, IsAllowed, authorize-IsAllowed}

pub data Endpoint : Type 0 where
  ping_agent see_instance new_instance command_instance drop_instance add_key remove_key : Endpoint

-- The requests that the server knows, by method and path.
unfoldable pub routes : List (Text × Text × Endpoint)
routes =
    (str "GET", str "/ping", ping_agent)
    ∷ (str "GET", str "/instances", see_instance)
    ∷ (str "POST", str "/instances", new_instance)
    ∷ (str "PUT", str "/instances", command_instance)
    ∷ (str "DELETE", str "/instances", drop_instance)
    ∷ (str "POST", str "/ssh", add_key)
    ∷ (str "DELETE", str "/ssh", remove_key)
    ∷ []

unfoldable pub find_route : Text → Text → List (Text × Text × Endpoint) → Option Endpoint
find_route verb path [] = none
find_route verb path ((v, p, e) ∷ rest) =
    let later = find_route verb path rest in
    if text_eq path p && text_eq verb v then some e else later

pub data Dispatched : Type 0 where
  denied : ℕ → Text → Dispatched
  not_found : Dispatched
  reaches : Endpoint → Dispatched

abbrev pub on_route : Option Endpoint → Dispatched
on_route none = not_found
on_route (some e) = reaches e

abbrev pub on_authorized : Text → Text → Option (ℕ × Text) → Dispatched
on_authorized verb path (some (code, text)) = denied code text
on_authorized verb path none = on_route (find_route verb path routes)

-- `secret` is the agent's, `provided` the request's, empty where it has none.
unfoldable pub dispatch : Text → Text → Text → Text → Dispatched
unfolding authorize find_route routes
dispatch secret verb path provided = on_authorized verb path (authorize secret path provided)

-- Who reaches an endpoint: anyone /ping, and who gives the agent's secret, which is not empty.
abbrev pub MayReach : Text → Text → Endpoint → Type 0
MayReach secret provided e = (e ≡ ping_agent) ⊎ ((provided ≡ secret) × (is_nil secret ≡ false))

abbrev pub Guards : Text → Text → Dispatched → Type 0
Guards secret provided (denied code text) = (code ≡ 401) ⊎ (code ≡ 403)
Guards secret provided not_found = Unit {0}
Guards secret provided (reaches e) = MayReach secret provided e

-- /ping leads to Ping only, whatever the method.
PingOnly : Option Endpoint → Type 0
PingOnly none = Unit {0}
PingOnly (some e) = e ≡ ping_agent

find_route-ping : (verb : Text) → PingOnly (find_route verb (str "/ping") routes)
unfolding find_route routes text_eq str PingOnly
find_route-ping verb = elim (Bool-cases (text_eq verb (str "GET"))) [
  | inl e ↦ rw e refl
  | inr e ↦ rw e tt
]

PingOnly-Guards :
    (secret provided : Text) (o : Option Endpoint)
    → PingOnly o
    → Guards secret provided (on_route o)
unfolding PingOnly
PingOnly-Guards secret provided none h = tt
PingOnly-Guards secret provided (some e) h = inl h

secret-Guards :
    (secret provided : Text) (o : Option Endpoint)
    → (provided ≡ secret) × (is_nil secret ≡ false)
    → Guards secret provided (on_route o)
secret-Guards secret provided none h = tt
secret-Guards secret provided (some e) h = inr h

-- What the middleware lets through, or its status.
IsRefusal : Option (ℕ × Text) → Type 0
IsRefusal none = Unit {0}
IsRefusal (some (code, text)) = (code ≡ 401) ⊎ (code ≡ 403)

authorize-IsRefusal : (secret path provided : Text) → IsRefusal (authorize secret path provided)
unfolding authorize IsRefusal
authorize-IsRefusal secret path provided = elim (Bool-cases (text_eq path (str "/ping"))) [
  | inl p ↦ rw p tt
  | inr p ↦ elim (Bool-cases (is_nil provided)) [
    | inl e ↦ rw (p, e) (inl refl)
    | inr e ↦ elim (Bool-cases (text_eq provided secret)) [
      | inl s ↦ rw (p, e, s) tt
      | inr s ↦ rw (p, e, s) (inr refl)
    ]
  ]
]

on_authorized-Guards :
    (secret verb path provided : Text) (o : Option (ℕ × Text))
    → IsRefusal o
    → (o ≡ none → IsAllowed secret path provided)
    → Guards secret provided (on_authorized verb path o)
unfolding IsRefusal
on_authorized-Guards secret verb path provided (some (code, text)) h allowed = h
on_authorized-Guards secret verb path provided none h allowed = elim (allowed refl) [
  | inl same ↦
      subst (λ p. Guards secret provided (on_route (find_route verb p routes))) (sym same)
        (PingOnly-Guards secret provided (find_route verb (str "/ping") routes)
          (find_route-ping verb))
  | inr given ↦ secret-Guards secret provided (find_route verb path routes) given
]

-- No endpoint but Ping is reached without the agent's secret, and only Ping if that secret is empty,
-- whatever the method and the path; a request that is denied gets 401 or 403.
pub dispatch-Guards :
    (secret verb path provided : Text) → Guards secret provided (dispatch secret verb path provided)
unfolding dispatch
dispatch-Guards secret verb path provided =
    on_authorized-Guards secret verb path provided (authorize secret path provided)
      (authorize-IsRefusal secret path provided)
      (λ e. (authorize-IsAllowed secret path provided).0 e)
