-- ===== src/Errors.antt =====
-- src/ssrfguard/errors.py: the refusals, and the other exceptions that reach a caller. A reason
-- holds the values that its sentence is made of, in place of the sentence.
use ssrfguard.Base.{ℕ, List, Option, Text}
use ssrfguard.Net.{IpAddress}
use ssrfguard.Address.Defs.{BlockReason}

-- What a refused address was named by: the address itself, or the name that was resolved.
pub data Subject : Type 0 where
  an_ip : IpAddress → Subject
  a_host : Text → Subject

pub data AddressReason : Type 0 where
  by_table : BlockReason → AddressReason
  all_refused : List (IpAddress × BlockReason) → AddressReason
  resolves_both : List IpAddress → List (IpAddress × BlockReason) → AddressReason
  peer_moved : IpAddress → IpAddress → AddressReason

-- How a refusal quotes the URL: as given, or by a length alone.
pub data Quoted : Type 0 where
  verbatim : Text → Quoted
  url_of_length : ℕ → Quoted
  host_of_length : ℕ → Quoted

pub data UrlReason : Type 0 where
  longer_than : ℕ → UrlReason
  control_character : ℕ → ℕ → UrlReason
  not_parsed : UrlReason
  no_scheme : UrlReason
  scheme_not_allowed : Text → UrlReason
  carries_credentials : UrlReason
  host_not_parsed : UrlReason
  no_host : UrlReason
  percent_in_host : UrlReason
  unusable_name : Text → UrlReason
  encoded_address : Text → UrlReason
  malformed_host : Text → UrlReason
  host_not_listed : Text → List Text → Option Text → UrlReason
  unusable_port : UrlReason
  no_default_port : Text → UrlReason
  not_a_port : ℕ → UrlReason
  port_not_allowed : ℕ → UrlReason
  address_refused : BlockReason → UrlReason
  unix_socket : UrlReason

-- `SSRFGuardError` and its four subclasses.
pub data Refusal : Type 0 where
  blocked_address : Subject → AddressReason → Refusal
  blocked_url : Quoted → UrlReason → Refusal
  proxy_unsupported : Text → Refusal
  too_many_redirects : ℕ → List Text → Refusal

-- What a call can raise. `torn_down` is a `BaseException` that is no `Exception`.
pub data Exception : Type 0 where
  refused : Refusal → Exception
  value_error : Exception
  type_error : Exception
  gaierror : Exception
  timeout_error : Exception
  os_error : Exception
  torn_down : Exception
