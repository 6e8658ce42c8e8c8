-- ===== src/Client/Options.antt =====
-- The constructors of `Client` and `AsyncClient` of src/ssrfguard/httpx.py: which option goes where, and
-- which proxy would carry the requests. A value of an option is a parameter.
use ssrfguard.Base.{
  Bool, true, false, not, ◌||◌, List, [], ◌∷◌, Option, none, some, codes, Text, text_eq, any, keep,
  Result, ok, raise, ◌>>=◌, ◌>>◌, if◌then◌else◌,
}
use ssrfguard.Errors.{Exception, refused, type_error, proxy_unsupported}
use ssrfguard.Policy.Config.{Policy}
use ssrfguard.Client.Pools.{Transport}

-- What the code asks of the value of an option: its truth, and `str`.
pub record Values : Type 1 where
  pub Value : Type 0
  pub truth : Value → Bool
  pub shown : Value → Text

abbrev pub is_in : List Text → Text → Bool
is_in names name = any (text_eq name) names

-- `_TRANSPORT_OPTIONS`
abbrev pub transport_options : List Text
transport_options =
    codes "verify"
    ∷ (codes "cert"
        ∷ (codes "http1"
            ∷ (codes "http2"
                ∷ (codes "limits"
                    ∷ (codes "local_address"
                        ∷ (codes "retries" ∷ (codes "socket_options" ∷ [])))))))

-- `_SHARED_OPTIONS`
abbrev pub shared_options : List Text
shared_options = codes "trust_env" ∷ []

-- `_ROUTING_OPTIONS`
abbrev pub routing_options : List Text
routing_options = codes "proxy" ∷ (codes "mounts" ∷ [])

-- `_CLIENT_OPTIONS`
abbrev pub client_options : List Text
client_options =
    codes "auth"
    ∷ (codes "base_url"
        ∷ (codes "cookies"
            ∷ (codes "default_encoding"
                ∷ (codes "event_hooks"
                    ∷ (codes "follow_redirects"
                        ∷ (codes "headers"
                            ∷ (codes "max_redirects"
                                ∷ (codes "params" ∷ (codes "timeout" ∷ [])))))))))

abbrev pub is_known : Text → Bool
is_known name =
    is_in transport_options name
    || (is_in shared_options name || (is_in routing_options name || is_in client_options name))

-- `_environment_proxy`, of the values that `get_environment_proxies` gives
unfoldable pub environment_proxy : Bool → List (Option Text) → Option Text
environment_proxy false proxies = none
environment_proxy true [] = none
environment_proxy true (some proxy ∷ more) = some proxy
environment_proxy true (none ∷ more) = environment_proxy true more

-- A transport that a caller gives: one of the class that the client expects, or another object.
pub data Given : Type 0 where
  guarded : Transport → Given
  another : Given

-- `_policy_from`; of the resolver it asks only whether one is given.
unfoldable pub policy_from : Option Policy → Bool → Option Given → Result Exception Policy
policy_from none resolver none = raise type_error
policy_from (some p) resolver none = ok p
policy_from policy resolver (some another) = raise type_error
policy_from (some p) resolver (some (guarded t)) = raise type_error
policy_from none resolver (some (guarded t)) = if resolver then raise type_error else ok t.policy

-- The transport of a client: built with options, or the one given.
pub data Source (V : Values) : Type 0 where
  built_with : List (Text × V.Value) → Source V
  as_given : Given → Source V

-- What a client is made of, if it is made.
pub record Built (V : Values) : Type 0 where
  pub policy : Policy
  pub source : Source V
  pub for_client : List (Text × V.Value)

module _ (V : Values) where
  abbrev pub Options : Type 0
  Options = List (Text × V.Value)

  abbrev pub has_name : (Text → Bool) → Text × V.Value → Bool
  has_name test (name, value) = test name

  -- `options.get(name)`
  abbrev pub find : Text → Options → Option V.Value
  find name [] = none
  find name ((key, value) ∷ more) =
      let later = find name more in if text_eq key name then some value else later

  -- `_split_options`
  unfoldable pub split_options : Options → Result Exception (Options × Options)
  split_options options =
      if any (has_name (λ name. not (is_known name))) options
      then raise type_error
      else ok (
        keep (has_name (λ name. is_in transport_options name || is_in shared_options name)) options,
        keep (has_name (λ name. not (is_in transport_options name))) options,
      )

  abbrev pub truth_of : Option V.Value → Bool
  truth_of none = false
  truth_of (some value) = V.truth value

  abbrev pub text_of : Option V.Value → Text
  text_of none = []
  text_of (some value) = V.shown value

  -- `client_options.get("proxy") or client_options.get("mounts")`
  abbrev pub explicit_proxy : Options → Option V.Value
  explicit_proxy options =
      if truth_of (find (codes "proxy") options)
      then find (codes "proxy") options
      else find (codes "mounts") options

  -- `_configured_proxy`
  unfoldable pub configured_proxy : Options → Bool → List (Option Text) → Option Text
  configured_proxy options trust_env environment =
      if truth_of (explicit_proxy options)
      then some (text_of (explicit_proxy options))
      else environment_proxy trust_env environment

  -- `bool(client_options.get("trust_env", True))`
  abbrev pub trusts_env : Options → Bool
  trusts_env options = elim (find (codes "trust_env") options) [
    | none ↦ true
    | some value ↦ V.truth value
  ]

  abbrev pub refuse_proxy : Policy → Option Text → Result Exception (Unit {0})
  refuse_proxy p none = ok tt
  refuse_proxy p (some proxy) =
      if not p.allow_proxy then raise (refused (proxy_unsupported proxy)) else ok tt

  -- `if transport is None`
  abbrev pub source_of : Option Given → Options → Source V
  source_of none for_transport = built_with for_transport
  source_of (some given) for_transport = as_given given

  -- `Client.__init__` and `AsyncClient.__init__`: the policy, the transport, which they build with the
  -- options that are for it if none is given, and the options that go to the client of httpx.
  unfoldable pub new_client :
      Option Policy
      → Bool
      → Option Given
      → List (Option Text)
      → Options
      → Result Exception (Built V)
  new_client policy resolver given environment options = policy_from policy resolver given >>= λ p.
      split_options options >>= λ (for_transport, for_client).
      refuse_proxy p (configured_proxy for_client (trusts_env for_client) environment)
      >> ok (record { policy = p; source = source_of given for_transport; for_client = for_client })
