-- ===== src/Observer/Decision.antt =====
-- `Decision` of src/ssrfguard/_observer.py.
use ssrfguard.Base.{ℕ, List, Option, Text}
use ssrfguard.Net.{IpAddress}
use ssrfguard.Errors.{AddressReason, UrlReason, Refusal}

pub data Stage : Type 0 where
  url_stage address_stage peer_stage redirect_stage : Stage

pub data Outcome : Type 0 where
  permits refuses : Outcome

-- The reason of a refusal, of an address or of a URL.
pub data Reason : Type 0 where
  of_address : AddressReason → Reason
  of_url : UrlReason → Reason
  of_refusal : Refusal → Reason

-- `str(address)`, as the address it is the text of; there may be none.
abbrev pub Shown : Type 0
Shown = Option IpAddress

pub record Decision : Type 0 where
  pub stage : Stage
  pub outcome : Outcome
  pub reason : Option Reason
  pub url : Option Text
  pub host : Option Text
  pub port : Option ℕ
  pub address : Option IpAddress
  pub chain : List Text
  pub also_seen : List Shown
