-- ===== src/Examples/Networks.antt =====
-- Tests: the choice of the Wi-Fi address.
use secure_io_t_device_platf.Base.{
  ℕ, String, true, false, Option, some, none, [], ◌∷◌, ◌==◌, if◌then◌else◌,
}
use secure_io_t_device_platf.Base.Text.{is_space}
use secure_io_t_device_platf.Network.{
  Ip, Candidate, Host, posix, family_of, text_le, contains_text, valid_candidate, dedupe, rank,
  rank_le, least, after_inet, line_candidate, read_lines, posix_wifi_candidates, listed_candidates,
  collect_wifi_ipv4_candidates, select_from, select_wifi_ipv4,
}
use secure_io_t_device_platf.Network.Words.{words, first_words, before_slash}
use secure_io_t_device_platf.Network.Selected.{Verdict, select_wifi_ipv4-Verdict}
use secure_io_t_device_platf.Examples.{json}

abbrev ip : ℕ → Ip
ip value = record {
  is_v4 = true;
  value = value;
  is_private = true;
  is_loopback = false;
  is_link_local = false;
  is_multicast = false;
  is_unspecified = false;
}

abbrev ip_address : String → Option Ip
ip_address s =
    if s == "10.0.0.7"
    then some (ip 167772167)
    else if s == "192.168.4.2"
    then some (ip 3232236546)
    else none

abbrev host : Host
host = posix ("wlan0" ∷ []) (
    some (
      0,
      "2: eth0 inet 192.168.1.5/24" ∷ "3: wlan0 inet 10.0.0.7/8 brd"
          ∷ "3: wlan0 inet 192.168.4.2/24 brd" ∷ [],
    ))

abbrev first : Candidate
first = record { address = "10.0.0.7"; interface = "wlan0" }

abbrev second : Candidate
second = record { address = "192.168.4.2"; interface = "wlan0" }

select_wifi_ipv4-Verdict_example :
    Verdict ip_address (first ∷ second ∷ []) (some ("192.168.4.2", first ∷ second ∷ []))
unfolding select_wifi_ipv4 collect_wifi_ipv4_candidates listed_candidates posix_wifi_candidates
    read_lines line_candidate after_inet words first_words before_slash is_space contains_text
    dedupe valid_candidate select_from least rank_le rank family_of text_le
select_wifi_ipv4-Verdict_example = select_wifi_ipv4-Verdict ip_address json host
