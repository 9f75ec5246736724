-- ===== src/Network.antt =====
-- scripts/network_config.py: the choice of the host's Wi-Fi address. The commands that list the adapters
-- and the `ipaddress` module are arguments.
pub mod Words
pub mod Order
pub mod Selected
use secure_io_t_device_platf.Base.{
  ℕ, ◌/◌, ◌*◌, ◌+◌, String, Bool, true, false, not, ◌&&◌, ◌||◌, Option, none, some, List, [], ◌∷◌,
  ltb, eqb, ◌==◌, if◌then◌else◌,
}
use secure_io_t_device_platf.Base.Text.{codes, strip, is_empty}
use secure_io_t_device_platf.Json.{
  Json, Items, Fields, JsonLib, text, list, dict, nil, cons, get, or_default,
}
use secure_io_t_device_platf.Network.Words.{words, before_slash}

-- What `ipaddress.ip_address` says of a text.
pub record Ip : Type 0 where
  pub is_v4 : Bool
  pub value : ℕ
  pub is_private : Bool
  pub is_loopback : Bool
  pub is_link_local : Bool
  pub is_multicast : Bool
  pub is_unspecified : Bool

pub record Candidate : Type 0 where
  pub address : String
  pub interface : String

abbrev pub usable : Ip → Bool
usable ip =
    ip.is_v4
    && ip.is_private
    && not ip.is_loopback
    && not ip.is_link_local
    && not ip.is_multicast
    && not ip.is_unspecified

-- The first 16 bits of 192.168.0.0, 8 of 10.0.0.0 and 12 of 172.16.0.0
unfoldable pub family_of : Ip → ℕ
family_of ip =
    if eqb (ip.value / 65536) 49320
    then 0
    else if eqb (ip.value / 16777216) 10
    then 1
    else if eqb (ip.value / 1048576) 2753
    then 2
    else 3

-- The order of texts, by code points.
unfoldable pub text_le : List ℕ → List ℕ → Bool
text_le [] ys = true
text_le (x ∷ xs) [] = false
text_le (x ∷ xs) (y ∷ ys) = ltb x y || (eqb x y && text_le xs ys)

unfoldable pub contains_text : String → List String → Bool
contains_text s [] = false
contains_text s (t ∷ ts) = s == t || contains_text s ts

module _ (ip_address : String → Option Ip) where
  unfoldable pub valid_candidate : String → Bool
  valid_candidate address = elim (ip_address address) [ none ↦ false | some ip ↦ usable ip ]

  unfoldable pub dedupe : List String → List Candidate → List Candidate
  dedupe seen [] = []
  dedupe seen (item ∷ items) =
      let skipped = dedupe seen items in
      let kept = dedupe (item.address ∷ seen) items in
      if contains_text item.address seen || not (valid_candidate item.address)
      then skipped
      else item ∷ kept

  unfoldable pub rank : Candidate → ℕ × List ℕ
  rank c = elim (ip_address c.address) [
    | none ↦ (3, codes c.address)
    | some ip ↦ (family_of ip, codes c.address)
  ]

  unfoldable pub rank_le : Candidate → Candidate → Bool
  rank_le c d =
      ltb (rank c).0 (rank d).0 || (eqb (rank c).0 (rank d).0 && text_le (rank c).1 (rank d).1)

  -- min(candidates, key=rank): the first of the least
  unfoldable pub least : Candidate → List Candidate → Candidate
  least c [] = c
  least c (d ∷ rest) = least (if rank_le c d then c else d) rest

-- str(item.get(key, "")).strip()
unfoldable pub item_text : JsonLib → String → Fields → String
item_text lib key fields = strip (lib.str (or_default (get key fields) (text "")))

unfoldable pub windows_item : JsonLib → Fields → List Candidate → List Candidate
windows_item lib fields rest =
    let address = item_text lib "Address" fields in
    if is_empty address
    then rest
    else record { address = address; interface = item_text lib "Interface" fields } ∷ rest

unfoldable pub windows_items : JsonLib → Items → List Candidate
windows_items lib nil = []
windows_items lib (cons (dict fields) items) = windows_item lib fields (windows_items lib items)
windows_items lib (cons item items) = windows_items lib items

unfoldable pub windows_payload : JsonLib → Option Json → List Candidate
windows_payload lib (some (dict fields)) = windows_item lib fields []
windows_payload lib (some (list items)) = windows_items lib items
windows_payload lib _ = []

-- What a command did: none where it is not installed.
pub record CompletedProcess : Type 0 where
  pub returncode : ℕ
  pub stdout : String

unfoldable pub windows_wifi_candidates : JsonLib → Option CompletedProcess → List Candidate
windows_wifi_candidates lib none = []
windows_wifi_candidates lib (some completed) =
    if not (eqb completed.returncode 0) || is_empty (strip completed.stdout)
    then []
    else windows_payload lib (lib.loads completed.stdout)

-- parts[parts.index("inet") + 1], none for a ValueError or an IndexError
unfoldable pub after_inet : List String → Option String
after_inet [] = none
after_inet (p ∷ []) = none
after_inet (p ∷ q ∷ parts) = if p == "inet" then some q else after_inet (q ∷ parts)

unfoldable pub line_candidate : List String → List String → Option Candidate
line_candidate interfaces (a ∷ interface ∷ c ∷ d ∷ parts) =
    if not (contains_text interface interfaces)
    then none
    else elim (after_inet (a ∷ interface ∷ c ∷ d ∷ parts)) [
      | none ↦ none
      | some address ↦ some (record { address = before_slash address; interface = interface })
    ]
line_candidate interfaces _ = none

unfoldable pub read_lines : List String → List String → List Candidate
read_lines interfaces [] = []
read_lines interfaces (l ∷ lines) =
    let rest = read_lines interfaces lines in
    elim (line_candidate interfaces (words l)) [ none ↦ rest | some c ↦ c ∷ rest ]

-- `ip addr`: its return code and the lines of its output.
unfoldable pub posix_wifi_candidates : List String → Option (ℕ × List String) → List Candidate
posix_wifi_candidates interfaces none = []
posix_wifi_candidates [] (some completed) = []
posix_wifi_candidates (i ∷ interfaces) (some (returncode, lines)) =
    if eqb returncode 0 then read_lines (i ∷ interfaces) lines else []

-- What the operating system says of its adapters.
pub data Host : Type 0 where
  windows : Option CompletedProcess → Host
  posix : List String → Option (ℕ × List String) → Host

unfoldable pub listed_candidates : JsonLib → Host → List Candidate
listed_candidates lib (windows completed) = windows_wifi_candidates lib completed
listed_candidates lib (posix interfaces completed) = posix_wifi_candidates interfaces completed

unfoldable pub collect_wifi_ipv4_candidates : (String → Option Ip) → JsonLib → Host → List Candidate
collect_wifi_ipv4_candidates ip_address lib host = dedupe ip_address [] (listed_candidates lib host)

-- none for the RuntimeError
unfoldable pub select_from :
    (String → Option Ip) → List Candidate → Option (String × List Candidate)
select_from ip_address [] = none
select_from ip_address (c ∷ rest) = some ((least ip_address c rest).address, c ∷ rest)

unfoldable pub select_wifi_ipv4 :
    (String → Option Ip) → JsonLib → Host → Option (String × List Candidate)
select_wifi_ipv4 ip_address lib host =
    select_from ip_address (collect_wifi_ipv4_candidates ip_address lib host)
