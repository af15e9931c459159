-- ===== src/Qudata.antt =====
-- internal/qudata/client.go: the client of the rental service. The service is a parameter: what it, or
-- the network before it, answers to a request.
use qudata_agent.Common.{
  ℕ, Bool, true, false, Option, none, some, [], ltb, leb, pos, ◌++◌, ◌∷◌, ◌||◌, if◌then◌else◌,
}
use qudata_agent.Common.Text.{Text, str}
use qudata_agent.Domain.{Error, Result, err, wrapped, ok, plain}
use qudata_agent.Common.Decimal.{itoa}

-- The header of a request that names its sender: X-Agent-Secret or X-API-Key.
pub data Credential : Type 0 where
  agent_secret : Text → Credential
  api_key_of : Text → Credential

pub record ApiRequest : Type 0 where
  pub verb : Text
  pub url : Text
  pub credential : Credential
  pub body : Option Text

-- The errors of http.NewRequest, of http.Client.Do and of io.ReadAll, or the status with the body.
pub data ApiAnswer : Type 0 where
  invalid_request : Error → ApiAnswer
  unanswered : Error → ApiAnswer
  unread_body : Error → ApiAnswer
  answered : ℕ → Text → ApiAnswer

abbrev pub Service : Type 0
Service = ApiRequest → ApiAnswer

pub record ApiClient : Type 0 where
  pub base_url : Text
  pub key : Text
  pub secret : Text

unfoldable pub new_client : Text → Text → ApiClient
new_client api_key base_url = record { base_url = base_url; key = api_key; secret = [] }

unfoldable pub use_secret : Text → ApiClient → ApiClient
use_secret secret c = record c { secret = secret }

abbrev pub credential_of : Text → Text → Credential
credential_of [] api_key = api_key_of api_key
credential_of (x ∷ secret) api_key = agent_secret (x ∷ secret)

unfoldable pub request_of : ApiClient → Text → Text → Option Text → ApiRequest
request_of c verb path body = record {
  verb = verb;
  url = c.base_url ++ path;
  credential = credential_of c.secret c.key;
  body = body;
}

unfoldable pub on_answer : Text → Text → ApiAnswer → Result Text
on_answer verb path (invalid_request e) = err (wrapped (str "create request") e [])
on_answer verb path (unanswered e) = err (wrapped (str "http " ++ (verb ++ (str " " ++ path))) e [])
on_answer verb path (unread_body e) = err (wrapped (str "read response body") e [])
on_answer verb path (answered status body) =
    if ltb status 200 || leb 300 status
    then err (
        plain (
          str "API "
          ++ (verb
              ++ (str " "
                  ++ (path ++ (str " returned " ++ (itoa (pos status) ++ (str ": " ++ body))))))))
    else ok body

unfoldable pub do_request : Service → ApiClient → Text → Text → Option Text → Result Text
unfolding on_answer request_of
do_request service c verb path body = on_answer verb path (service (request_of c verb path body))

-- The error alone, as Ping, RegisterHost and SendStats return it.
abbrev pub failure_of : Result Text → Option Error
failure_of (ok body) = none
failure_of (err e) = some e

unfoldable pub ping : Service → ApiClient → Option Error
unfolding do_request
ping service c = failure_of (do_request service c (str "GET") (str "/ping") none)

pub record InitAgentRequest : Type 0 where
  pub agent_id : Text
  pub agent_port : ℕ
  pub address : Text
  pub fingerprint : Text
  pub pid : ℕ
  pub version : Text
  pub test_mode : Bool

pub record InitAgentRespData : Type 0 where
  pub agent_created : Bool
  pub emergency_reinit : Bool
  pub host_exists : Bool
  pub secret_key : Text
  pub tunnel_token : Text
  pub instance_running : Bool

-- encoding/json, for the two types of /init: the response is read as its flag `ok` with the data.
pub record InitJson : Type 0 where
  pub marshal : InitAgentRequest → Text
  pub unmarshal : Text → Result (Bool × InitAgentRespData)

unfoldable pub on_init_parsed : Result (Bool × InitAgentRespData) → Result InitAgentRespData
on_init_parsed (err e) = err (wrapped (str "unmarshal init response") e [])
on_init_parsed (ok (false, d)) = err (plain (str "init agent: API returned ok=false"))
on_init_parsed (ok (true, d)) = ok d

unfoldable pub on_init_body : InitJson → Result Text → Result InitAgentRespData
unfolding on_init_parsed
on_init_body json (err e) = err (wrapped (str "init agent") e [])
on_init_body json (ok body) = on_init_parsed (json.unmarshal body)

unfoldable pub init_agent :
    InitJson → Service → ApiClient → InitAgentRequest → Result InitAgentRespData
unfolding on_init_body do_request
init_agent json service c req =
    on_init_body json (do_request service c (str "POST") (str "/init") (some (json.marshal req)))

abbrev pub prefixed : Text → Option Error → Option Error
prefixed t none = none
prefixed t (some e) = some (wrapped t e [])

-- The request for the host is given as json.Marshal writes it, which may fail on its floats.
unfoldable pub register_host : Service → ApiClient → Result Text → Option Error
unfolding do_request
register_host service c (err e) = some (wrapped (str "marshal host request") e [])
register_host service c (ok body) =
    prefixed (str "register host")
      (failure_of (do_request service c (str "POST") (str "/init/host") (some body)))

unfoldable pub send_stats : Service → ApiClient → Result Text → Option Error
unfolding do_request
send_stats service c (err e) = some (wrapped (str "marshal stats") e [])
send_stats service c (ok body) =
    failure_of (do_request service c (str "POST") (str "/stats") (some body))
