-- ===== src/Tests/Data.antt =====
-- The data of the tests.
use ssrfguard.Base.{true, false, List, [], ◌∷◌, none, some, Text, codes, ok, raise}
use ssrfguard.Net.{ipv4, IpAddress, v4}
use ssrfguard.Registry.Defs.{denied, permitted, Block}
use ssrfguard.Address.Defs.{AddressTable}
use ssrfguard.Errors.{timeout_error, os_error}
use ssrfguard.Observer.Report.{Observer, raises}
use ssrfguard.Policy.Platform.{Platform}
use ssrfguard.Policy.Config.{Policy}
use ssrfguard.Policy.Url.{Target}
use ssrfguard.Resolve.Defs.{Address, Resolver, ResolverAnswer}
use ssrfguard.Connect.Kernel.{Kernel, World}
use ssrfguard.Connect.Defs.{Settings}

-- 10.0.0.0/8, and 10.1.0.0/16 within it
abbrev pub ten : Block
ten = record {
  network = record { version = ipv4; base = 0x0a000000; prefixlen = 8 };
  name = "Private-Use";
  rfc = "RFC1918";
  reach = denied;
  note = "";
}

abbrev pub ten_one : Block
ten_one = record {
  network = record { version = ipv4; base = 0x0a010000; prefixlen = 16 };
  name = "Lab";
  rfc = "RFC1918";
  reach = permitted;
  note = "";
}

abbrev pub two_rows : AddressTable
two_rows = record {
  blocks = ten ∷ (ten_one ∷ []);
  snapshot = "test";
  index_v4 = ten_one ∷ (ten ∷ []);
  index_v6 = [];
}

abbrev pub public_ip : IpAddress
public_ip = v4 0x5db8d822

abbrev pub private_ip : IpAddress
private_ip = v4 0x0a000001

abbrev pub policy : Policy
policy = record {
  allowed_schemes = codes "https" ∷ [];
  denied_networks = two_rows;
  allowed_networks = [];
  allowed_ports = 443 ∷ [];
  allowed_hosts = [];
  allow_userinfo = false;
  on_partial_block = codes "drop";
  max_redirects = 5;
  max_connection_attempts = 2;
  sensitive_headers = [];
  allow_proxy = false;
  max_url_length = 40;
}

-- A parser and a codec that know one URL.
abbrev pub platform : Platform
platform = record {
  urlsplit = λ url. some (record {
    scheme = codes "https";
    username = none;
    password = none;
    hostname = some (some (codes "a.example"));
    port = some none;
  });
  idna = λ host. some host;
}

abbrev pub url : Text
url = codes "https://a.example/x"

abbrev pub target : Target
target = record {
  scheme = codes "https";
  host = codes "a.example";
  port = 443;
  host_as_written = codes "a.example";
  address = none;
}

abbrev pub info_of : Text → ResolverAnswer
info_of host = record {
  family = 2;
  socktype = 1;
  proto = 6;
  canonname = [];
  sockaddr = record { host = host; port = 443; rest = [] };
}

abbrev pub address_of : Text → IpAddress → Address
address_of host ip = record {
  family = 2;
  sockaddr = record { host = host; port = 443; rest = [] };
  ip = ip;
  hostname = codes "a.example";
}

abbrev pub infos : List ResolverAnswer
infos =
    info_of (codes "93.184.216.34")
    ∷ (info_of (codes "10.0.0.1") ∷ (info_of (codes "93.184.216.34") ∷ []))

abbrev pub public_address : Address
public_address = address_of (codes "93.184.216.34") public_ip

abbrev pub private_address : Address
private_address = address_of (codes "10.0.0.1") private_ip

-- A lookup that gives the same rows for every name.
abbrev pub resolver : Resolver
resolver = record { lookup = λ host port numeric. ok infos; is_family = λ n. true }

-- A sink that raises on every record.
abbrev pub noisy : Observer
noisy d = raises

-- An operating system on which every connection is made.
abbrev pub calm_kernel : Kernel
calm_kernel = record {
  socket = λ calls family. ok 7;
  act = λ calls e. ok tt;
  peer_name = λ calls sock. ok (codes "93.184.216.34");
}

-- One on which every call times out, once a socket is there.
abbrev pub slow_kernel : Kernel
slow_kernel = record {
  socket = λ calls family. ok 7;
  act = λ calls e. raise timeout_error;
  peer_name = λ calls sock. raise os_error;
}

abbrev pub settings : Settings
settings = record { timeout = none; source_address = none; socket_options = none; observer = none }

abbrev pub start : World
start = record { trace = []; log = [] }
